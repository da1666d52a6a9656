-- ===== src/Routes/Race/Alone.antt =====
-- One request alone (`get_graph` of main.py) takes the steps of the race, and ends where `get_graph`
-- does.
use mathlib.Core.Path.{subst}
use deskfleet_ticketwarden.Base.{
  Option-cases, ℕ, true, ◌≡◌, refl, sym, ap, inl, inr, Option, none, some, ◌==◌, ==_iff,
}
use deskfleet_ticketwarden.Action.{Result, ok, raised}
use deskfleet_ticketwarden.Service.Resolve.{Invoke}
use deskfleet_ticketwarden.Routes.{
  Process, ChatModel, Environment, App, get_graph, compile_graph, keep_graph,
}
use deskfleet_ticketwarden.Routes.Race.{
  keep, build, miss, find, here, compiled, later, failed, compiling, holding, update, reading,
  Stage, GraphCache, Reach,
}

-- The stage of a request whose call has ended.
abbrev stage_of : Result Invoke → Stage
stage_of (ok g) = holding g
stage_of (raised e) = failed e

update-same : (stage : ℕ → Stage) (i : ℕ) (new : Stage) → update stage i new i ≡ new
update-same stage i new = let same : (i == i) ≡ true = (==_iff i i).1 refl in rw same refl

-- What one request does alone.
module _ (env : Environment) (connect : ChatModel → Result Invoke) (app : App) where
  abbrev Compiles : Result Invoke → Type 0
  Compiles r = (compile_graph env connect app.process).0 ≡ r

  abbrev before : GraphCache
  before = record { graph = app.graph; stage = λ j. reading }

  -- A state that one request reaches and that agrees with a call that returned.
  abbrev Arrives : ℕ → Result Invoke × App → Type 0
  Arrives i (r, app') =
      (s : GraphCache) × Reach Compiles before s × (s.graph ≡ app'.graph) × (s.stage i ≡ stage_of r)

  compile_graph-Arrives :
      (i : ℕ) (r : Result Invoke) (p : Process)
      → app.graph ≡ none
      → Compiles r
      → Arrives i (keep_graph env app (r, p))
  compile_graph-Arrives i (ok g) p bare gives =
      let waiting = update before.stage i compiling in
      let done = update waiting i (compiled g) in
      (
        record { graph = some g; stage = update done i (holding g) },
        later
            (later (later here (miss i refl bare))
              (build i (update-same before.stage i compiling) gives))
            (keep i (update-same waiting i (compiled g))),
        refl,
        update-same done i (holding g),
      )
  compile_graph-Arrives i (raised e) p bare gives =
      let waiting = update before.stage i compiling in
      (
        record { graph = app.graph; stage = update waiting i (failed e) },
        later (later here (miss i refl bare))
            (build i (update-same before.stage i compiling) gives),
        refl,
        update-same waiting i (failed e),
      )

  get_graph-Arrives : (i : ℕ) → Arrives i (get_graph env connect app)
  unfolding get_graph
  get_graph-Arrives i =
      let by_graph : Option Invoke → Result Invoke × App = λ o. elim o [
        | some g ↦ (ok g, app)
        | none ↦ keep_graph env app (compile_graph env connect app.process)
      ] in
      elim (Option-cases app.graph) [
        | inr (g, kept) ↦ subst (Arrives i) (sym (ap by_graph kept)) (
          record before { stage = update before.stage i (holding g) },
          later here (find i refl kept),
          refl,
          update-same before.stage i (holding g),
        )
        | inl bare ↦ subst (Arrives i) (sym (ap by_graph bare)) (
            compile_graph-Arrives i (compile_graph env connect app.process).0
              (compile_graph env connect app.process).1 bare refl)
      ]
