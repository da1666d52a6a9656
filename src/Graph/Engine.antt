-- ===== src/Graph/Engine.antt =====
-- The compiled graph. LangGraph runs it and is not part of the repository: what is written here is
-- its documented way to run a `StateGraph` with plain edges, one node after the other, each with a
-- merged state, until `END`, a raise, or the recursion limit.
use deskfleet_ticketwarden.Base.{ℕ, zero, suc}
use deskfleet_ticketwarden.Settings.{Settings}
use deskfleet_ticketwarden.Platform.{Platform}
use deskfleet_ticketwarden.Action.{◌>>=◌, raise, pure, Action, exception, Raised}
use deskfleet_ticketwarden.Catalog.Tables.{Catalog}
use deskfleet_ticketwarden.Graph.State.{CaseState}
use deskfleet_ticketwarden.Graph.Client.{LlmClient}
use deskfleet_ticketwarden.Graph.Nodes.{
  classifier, researcher, responder, reviewer, Route, route_after_review,
}

pub data Node : Type 0 where
  at_classifier at_researcher at_responder at_reviewer : Node

-- A target of an edge.
pub data Target : Type 0 where
  to_node : Node → Target
  to_end : Target

-- `{"responder": "responder", END: END}`
abbrev pub target_of : Route → Target
target_of Route.finish = to_end
target_of Route.retry = to_node at_responder

-- `GraphRecursionError`
abbrev pub recursion_error : Raised
recursion_error = exception "Recursion limit reached without hitting a stop condition."

module _ (settings : Settings) (P : Platform) (catalog : Catalog) (llm : LlmClient) where
  -- `add_node`
  unfoldable pub node_action : Node → CaseState → Action llm.Model CaseState
  node_action at_classifier = classifier settings P catalog llm
  node_action at_researcher = researcher settings P catalog llm
  node_action at_responder = responder settings P catalog llm
  node_action at_reviewer = reviewer settings P catalog llm

  -- `add_edge` and `add_conditional_edges`
  unfoldable pub edge : Node → CaseState → Target
  edge at_classifier state = to_node at_researcher
  edge at_researcher state = to_node at_responder
  edge at_responder state = to_node at_reviewer
  edge at_reviewer state = target_of (route_after_review settings state)

  -- What follows once a node has returned, with the rest of the run passed in.
  abbrev pub follow :
      (Node → CaseState → Action llm.Model CaseState)
      → Target
      → CaseState
      → Action llm.Model CaseState
  follow go (to_node n) state = go n state
  follow go to_end state = pure state

  -- `limit` steps at most.
  unfoldable pub run_from : ℕ → Node → CaseState → Action llm.Model CaseState
  run_from zero n state = raise recursion_error
  run_from (suc limit) n state =
      node_action n state >>= λ state'. follow (run_from limit) (edge n state') state'

  -- From `START`.
  unfoldable pub run_graph : ℕ → CaseState → Action llm.Model CaseState
  run_graph limit state = run_from limit at_classifier state
