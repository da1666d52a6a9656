-- ===== src/SeedScript/Exit.antt =====
-- The demo script against the application of the repository where no key is configured.
use deskfleet_ticketwarden.Action.{Result}
use deskfleet_ticketwarden.Llm.Provider.{ChatModel}
use deskfleet_ticketwarden.Base.{◌+◌, truthy, ℕ, ◌≡◌, some, String, Option, List, [], ◌∷◌}
use deskfleet_ticketwarden.Vocabulary.{decision_value}
use deskfleet_ticketwarden.Service.Resolve.{Environment, Moment, Invoke, ResolveResponse}
use deskfleet_ticketwarden.Routes.{App, Reply, replied, unprocessable, server_error, post_resolve}
use deskfleet_ticketwarden.SeedScript.{last_line, match_line, add_match, SeedCase, Posted}

-- The lines of a run in which every case is decided.
abbrev lines_from : (SeedCase → String) → ℕ → ℕ → List SeedCase → List String
lines_from verdict i ok [] = last_line ok ∷ []
lines_from verdict i ok (c ∷ cases) =
    match_line i c (verdict c) ∷ lines_from verdict (i + 1) (add_match c (verdict c) ok) cases

module _ {S : Type 0} (post : String → Option String → S → Posted × S) (I : S → Type 0)
    (verdict : SeedCase → String) where
  abbrev after_post : SeedCase → S → S
  after_post c s = (post c.ticket (truthy c.order_id) s).1

  -- The case is decided in every state of the invariant, which holds afterwards.
  abbrev IsDecided : SeedCase → Type 0
  IsDecided c =
      (s : S)
      → I s
      → ((post c.ticket (truthy c.order_id) s).0 ≡ Posted.replied (some (verdict c)))
        × I (after_post c s)

-- What `urlopen` makes of a reply: a status of 400 or more is an `HTTPError`, which is an
-- `URLError`.
abbrev pub posted : Reply ResolveResponse → Posted
posted (replied resp) = Posted.replied (some (decision_value resp.decision))
posted unprocessable = Posted.url_error "HTTP Error 422: Unprocessable Entity"
posted (server_error e) = Posted.url_error "HTTP Error 500: Internal Server Error"

module _ (env : Environment) (at : String → Moment) (connect : ChatModel → Result Invoke) where
  -- A post to the application, at the moment of the case.
  unfoldable pub post_to : String → Option String → App → Posted × App
  post_to ticket order_id app =
      let (r, app') = post_resolve env (at ticket) connect ticket order_id app in (posted r, app')
