-- ===== src/Service/Concurrent/Interleaving.antt =====
-- The orders in which the writes of several requests can come: service.py is a plain function that
-- main.py calls from a pool of threads, so each request keeps its own order and nothing else is
-- fixed.
use deskfleet_ticketwarden.Base.{List, [], ◌∷◌, map}
use deskfleet_ticketwarden.Action.{Result}
use deskfleet_ticketwarden.Service.Concurrent.{Write, resolve_case_writes}
use deskfleet_ticketwarden.Service.Resolve.{
  Environment, Moment, Invoke, ResolveRequest, ResolveResponse,
}

pub data Interleaves : List Write → List Write → List Write → Type 0 where
  done : Interleaves [] [] []
  left :
      {x : Write} {xs ys zs : List Write} → Interleaves xs ys zs → Interleaves (x ∷ xs) ys (x ∷ zs)
  right :
      {y : Write} {xs ys zs : List Write} → Interleaves xs ys zs → Interleaves xs (y ∷ ys) (y ∷ zs)

pub data Merges : List (List Write) → List Write → Type 0 where
  none_left : Merges [] []
  one_more :
      {xs ys zs : List Write} {threads : List (List Write)}
      → Merges threads ys
      → Interleaves xs ys zs
      → Merges (xs ∷ threads) zs

-- A call of `resolve_case`, with what it finds.
pub record Job : Type 0 where
  pub at : Moment
  pub invoke : Invoke
  pub request : ResolveRequest

module _ (env : Environment) where
  abbrev pub result_of : Job → Result ResolveResponse
  result_of job = (resolve_case_writes env job.at job.invoke job.request).0

  abbrev pub writes_of : Job → List Write
  writes_of job = (resolve_case_writes env job.at job.invoke job.request).1

  -- The writes of all jobs, in an order that can happen.
  abbrev pub Runs : List Job → List Write → Type 0
  Runs jobs writes = Merges (map writes_of jobs) writes
