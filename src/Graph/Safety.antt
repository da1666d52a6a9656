-- ===== src/Graph/Safety.antt =====
-- The graph of graph/build.py as a whole: what its tools did and what its prompts were shown.
use deskfleet_ticketwarden.Action.{Action}
use deskfleet_ticketwarden.Graph.Client.{Verdict}
use deskfleet_ticketwarden.Base.{◌≡◌, ℤ, [], All, length}
use deskfleet_ticketwarden.Settings.{Settings}
use deskfleet_ticketwarden.Platform.{Platform}
use deskfleet_ticketwarden.Catalog.Tables.{Catalog}
use deskfleet_ticketwarden.Graph.State.{CaseState}
use deskfleet_ticketwarden.Graph.Client.{Verdict, LlmClient}
use deskfleet_ticketwarden.Graph.Engine.{
  Node, at_classifier, at_researcher, at_responder, at_reviewer, Target, to_node, to_end,
}
use deskfleet_ticketwarden.Graph.Research.{IsSafe, IsMarked, WithinRounds}

-- What a case carries at the start: nothing yet.
abbrev pub IsEmpty : CaseState → Type 0
IsEmpty s = (s.facts ≡ []) × (s.tool_calls ≡ [])

-- What a case carries once the researcher has been there.
pub record IsResearched (P : Platform) (rounds : ℤ) (s : CaseState) : Type 0 where
  pub safe : All (IsSafe P) s.facts
  pub marked : All IsMarked s.tool_calls
  pub bounded : WithinRounds rounds (length s.tool_calls)

module _ (settings : Settings) (P : Platform) (catalog : Catalog) (llm : LlmClient) where
  -- What holds of a state that enters a node.
  abbrev Enters : Node → CaseState → Type 0
  Enters at_classifier s = IsEmpty s
  Enters at_researcher s = IsEmpty s
  Enters at_responder s = IsResearched P settings.max_tool_rounds s
  Enters at_reviewer s = IsResearched P settings.max_tool_rounds s

  -- What holds of a state that goes to a target.
  abbrev Goes : Target → CaseState → Type 0
  Goes to_end s = IsResearched P settings.max_tool_rounds s
  Goes (to_node n) s = Enters n s
