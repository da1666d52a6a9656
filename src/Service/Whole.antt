-- ===== src/Service/Whole.antt =====
-- The service (service.py) with the compiled graph (graph/build.py) behind it.
use deskfleet_ticketwarden.Injection.{is_injection}
use deskfleet_ticketwarden.Base.{◌↔◌, true, ℕ, ◌≤◌, ◌≡◌, ◌≢◌, ◌⊎◌, some, Option, All, length}
use deskfleet_ticketwarden.Settings.{Settings}
use deskfleet_ticketwarden.Platform.{Platform}
use deskfleet_ticketwarden.Catalog.Tables.{Catalog}
use deskfleet_ticketwarden.Vocabulary.{Decision}
use deskfleet_ticketwarden.Usage.{UsageCollector}
use deskfleet_ticketwarden.Graph.State.{CaseState}
use deskfleet_ticketwarden.Graph.Client.{LlmClient}
use deskfleet_ticketwarden.Graph.Engine.{run_graph}
use deskfleet_ticketwarden.Graph.Research.{IsMarked, WithinRounds}
use deskfleet_ticketwarden.Graph.Loop.{cap}
use deskfleet_ticketwarden.Service.Resolve.{
  refuse, ResolveRequest, ResolveResponse, Environment, Moment, Invoke, decision_of,
}
use deskfleet_ticketwarden.Service.Outcome.{redacted}

-- `compile_graph(llm).invoke`, from a state of the model and with what the collector then holds.
abbrev pub compiled :
    (settings : Settings) (P : Platform) (catalog : Catalog) (llm : LlmClient)
    → ℕ
    → llm.Model
    → (CaseState → UsageCollector)
    → Invoke
compiled settings P catalog llm limit m usage s k =
    ((run_graph settings P catalog llm limit s m).0, usage s)

-- What the settings bound in a case, and that no case is refused behind the injection check.
pub record IsBounded (settings : Settings) (s : CaseState) : Type 0 where
  pub reviews : s.iterations ≤ cap settings.max_review_iterations
  pub marked : All IsMarked s.tool_calls
  pub rounds : WithinRounds settings.max_tool_rounds (length s.tool_calls)
  pub answered : s.decision ≢ some Decision.refuse

module _ (env : Environment) (at : Moment) where
  -- What a response takes over from the final state of the graph.
  abbrev TakesOver : CaseState → ResolveResponse → Type 0
  TakesOver final resp =
      (resp.iterations ≡ final.iterations)
      × (resp.tool_calls ≡ final.tool_calls)
      × ((resp.decision ≡ Decision.escalate) ⊎ (resp.decision ≡ decision_of env at final))

module _ (env : Environment) (at : Moment) where
  -- What every response keeps to.
  abbrev KeepsTo : ResolveRequest → ResolveResponse → Type 0
  KeepsTo request resp =
      (resp.iterations ≤ cap env.settings.max_review_iterations)
      × WithinRounds env.settings.max_tool_rounds (length resp.tool_calls)
      × All IsMarked resp.tool_calls
      × ((resp.decision ≡ Decision.refuse)
          ↔ (is_injection env.platform.unicode (redacted env at request) ≡ true))
