-- ===== src/Routes/Race.antt =====
-- `get_graph` of main.py on several threads: a request reads `app.state.graph`, compiles a graph of its
-- own if there is none, and keeps it. Other requests may come between any two of these steps.
pub mod Alone
use mathlib.Core.Path.{subst}
use deskfleet_ticketwarden.Base.{
  is_some, Option-cases, ℕ, Bool, true, false, ◌≡◌, refl, sym, ap, ◌∙◌, ◌⊎◌, inl, inr, Option, none,
  some, ◌==◌, ==_iff, Bool-cases, if◌then◌else◌,
}
use deskfleet_ticketwarden.Action.{Result, ok, raised, Raised}
use deskfleet_ticketwarden.Service.Resolve.{Invoke}
use deskfleet_ticketwarden.Routes.{
  Process, ChatModel, Environment, App, get_graph, compile_graph, keep_graph,
}

-- Where a request stands in `get_graph`.
pub data Stage : Type 0 where
  reading compiling : Stage
  compiled holding : Invoke → Stage
  failed : Raised → Stage

abbrev pub update : (ℕ → Stage) → ℕ → Stage → ℕ → Stage
update stage i new j = if i == j then new else stage j

-- `app.state.graph`, and the stage of each request.
pub record GraphCache : Type 0 where
  pub graph : Option Invoke
  pub stage : ℕ → Stage

abbrev pub built : Result Invoke → Stage
built (ok g) = compiled g
built (raised e) = failed e

-- `Outcome` holds of what a compilation may end with.
module _ (Outcome : Result Invoke → Type 0) where
  pub data Step : GraphCache → GraphCache → Type 0 where
    find :
        {s : GraphCache} {g : Invoke} (i : ℕ)
        → s.stage i ≡ reading
        → s.graph ≡ some g
        → Step s (record s { stage = update s.stage i (holding g) })
    miss :
        {s : GraphCache} (i : ℕ)
        → s.stage i ≡ reading
        → s.graph ≡ none
        → Step s (record s { stage = update s.stage i compiling })
    build :
        {s : GraphCache} {r : Result Invoke} (i : ℕ)
        → s.stage i ≡ compiling
        → Outcome r
        → Step s (record s { stage = update s.stage i (built r) })
    keep :
        {s : GraphCache} {g : Invoke} (i : ℕ)
        → s.stage i ≡ compiled g
        → Step s (record { graph = some g; stage = update s.stage i (holding g) })

  pub data Reach (start : GraphCache) : GraphCache → Type 0 where
    here : Reach start start
    later : {s t : GraphCache} → Reach start s → Step s t → Reach start t

  -- What a request holds is the graph of the start, if there was one, and otherwise one that a
  -- compilation gave; and once a request holds a graph, one is kept.
  module _ (start : GraphCache) where
    abbrev IsGraph : Invoke → Type 0
    IsGraph g = (start.graph ≡ some g) ⊎ ((start.graph ≡ none) × Outcome (ok g))

    abbrev IsSound : Option Invoke → Stage → Type 0
    IsSound kept reading = Unit
    IsSound kept compiling = start.graph ≡ none
    IsSound kept (compiled g) = (start.graph ≡ none) × Outcome (ok g)
    IsSound kept (holding g) = IsGraph g × (is_some kept ≡ true)
    IsSound kept (failed e) = (start.graph ≡ none) × Outcome (raised e)

    abbrev IsKept : Option Invoke → Type 0
    IsKept none = start.graph ≡ none
    IsKept (some g) = IsGraph g

    pub record IsServed (s : GraphCache) : Type 0 where
      kept : IsKept s.graph
      stages : (i : ℕ) → IsSound s.graph (s.stage i)

    update-IsSound :
        (kept : Option Invoke) (stage : ℕ → Stage) (i : ℕ) (new : Stage)
        → ((j : ℕ) → IsSound kept (stage j))
        → IsSound kept new
        → (j : ℕ) → IsSound kept (update stage i new j)
    update-IsSound kept stage i new sound fresh j = elim (Bool-cases (i == j)) [
      | inl same ↦ rw same fresh
      | inr other ↦ rw other (sound j)
    ]

    built-IsSound :
        (kept : Option Invoke) (r : Result Invoke)
        → start.graph ≡ none
        → Outcome r
        → IsSound kept (built r)
    built-IsSound kept (ok g) bare o = (bare, o)
    built-IsSound kept (raised e) bare o = (bare, o)

    IsSound-some :
        (kept : Option Invoke) (g : Invoke) (stage : Stage)
        → IsSound kept stage
        → IsSound (some g) stage
    IsSound-some kept g reading h = h
    IsSound-some kept g compiling h = h
    IsSound-some kept g (compiled f) h = h
    IsSound-some kept g (holding f) h = (h.0, refl)
    IsSound-some kept g (failed e) h = h

    Step-IsServed : {s t : GraphCache} → Step s t → IsServed s → IsServed t
    Step-IsServed (find {s} {g} i at same) h = record {
      kept = h.kept;
      stages =
          update-IsSound s.graph s.stage i (holding g) h.stages
            (subst IsKept same h.kept, ap is_some same);
    }
    Step-IsServed (miss {s} i at bare) h = record {
      kept = h.kept;
      stages = update-IsSound s.graph s.stage i compiling h.stages (subst IsKept bare h.kept);
    }
    Step-IsServed (build {s} {r} i at o) h = record {
      kept = h.kept;
      stages =
          update-IsSound s.graph s.stage i (built r) h.stages
            (built-IsSound s.graph r (subst (IsSound s.graph) at (h.stages i)) o);
    }
    Step-IsServed (keep {s} {g} i at) h =
        let mine : (start.graph ≡ none) × Outcome (ok g) =
          subst (IsSound s.graph) at (h.stages i) in
        record {
          kept = inr mine;
          stages =
              update-IsSound (some g) s.stage i (holding g)
                (λ j. IsSound-some s.graph g (s.stage j) (h.stages j)) (inr mine, refl);
        }

  start-IsKept :
      (start : GraphCache) (kept : Option Invoke) → start.graph ≡ kept → IsKept start kept
  start-IsKept start none e = e
  start-IsKept start (some g) e = inl e

  -- Whatever the order in which requests read, compile and keep the graph, where all of them begin
  -- before they have read it: the graph that is kept, and that each request holds, is the one of
  -- the start, if there was one, and then none is compiled; otherwise it is one that a compilation
  -- gave. Once a request holds a graph, one is kept.
  pub Reach-IsServed :
      (start s : GraphCache)
      → ((i : ℕ) → start.stage i ≡ reading)
      → Reach start s
      → IsServed start s
  Reach-IsServed start s fresh here = record {
    kept = start-IsKept start start.graph refl;
    stages = λ i. subst (IsSound start start.graph) (sym (fresh i)) tt;
  }
  Reach-IsServed start t fresh (later {s} way step) =
      Step-IsServed start step (Reach-IsServed start s fresh way)
