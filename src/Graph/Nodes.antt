-- ===== src/Graph/Nodes.antt =====
-- The four nodes and the router. A node returns the state with its partial update merged in, which
-- replaces the keys that the update names.
use deskfleet_ticketwarden.Base.{
  ℕ, suc, String, Bool, true, false, Option, none, some, List, [], ◌∷◌, ◌++◌, ◌<>◌, show, or_else,
  truthy, text_or_empty, reaches, slice_to, if◌then◌else◌,
}
use deskfleet_ticketwarden.Settings.{Settings}
use deskfleet_ticketwarden.Platform.{Platform}
use deskfleet_ticketwarden.Vocabulary.{Category, category_of, Decision, is_resolved, ToolStatus}
use deskfleet_ticketwarden.Action.{Action, pure, ◌>>=◌}
use deskfleet_ticketwarden.Value.{Value}
use deskfleet_ticketwarden.Catalog.Tables.{Catalog}
use deskfleet_ticketwarden.Registry.{ToolRecord, dispatch_tool}
use deskfleet_ticketwarden.Injection.Quarantine.{scan_tool_result}
use deskfleet_ticketwarden.Pii.{redact_pii}
use deskfleet_ticketwarden.Graph.State.{Fact, CaseState}
use deskfleet_ticketwarden.Graph.Client.{ToolRequest, Verdict, LlmClient}

abbrev pub category_or_other : Option Category → Category
category_or_other c = or_else c Category.other

abbrev pub is_ok : ToolStatus → Bool
is_ok ToolStatus.ok = true
is_ok _ = false

-- What one request adds to the facts, and the record of its dispatch, quarantined if flagged.
abbrev pub quarantined : Bool → ToolRecord → Fact → ToolRecord
quarantined false r fact = r
quarantined true r fact = record r { status = ToolStatus.sanitized; result = fact.found }

module _ (P : Platform) (catalog : Catalog) where
  abbrev pub settle_ok : ToolRecord → Bool × Value → List Fact × ToolRecord
  settle_ok r (flagged, sanitized) =
      let fact : Fact = record { tool = r.tool_name; args = r.args; found = sanitized } in
      (fact ∷ [], quarantined flagged r fact)

  unfoldable pub settle : ToolRecord → List Fact × ToolRecord
  settle r = if is_ok r.status then settle_ok r (scan_tool_result P.unicode r.result) else ([], r)

  -- The loop over the requests that are within the bound.
  unfoldable pub research_from :
      List ToolRequest → List Fact × List ToolRecord → List Fact × List ToolRecord
  research_from [] acc = acc
  research_from (req ∷ requests) (facts, tool_calls) =
      let (found, r) = settle (dispatch_tool P catalog req.name req.args) in
      research_from requests (facts ++ found, tool_calls ++ r ∷ [])

module _ (settings : Settings) (P : Platform) (catalog : Catalog) (llm : LlmClient) where
  unfoldable pub classifier : CaseState → Action llm.Model CaseState
  classifier state = do
    answer ← llm.classify state.ticket
    pure (record state { category = some (or_else (category_of answer) Category.other) })

  unfoldable pub researcher : CaseState → Action llm.Model CaseState
  researcher state = do
    requests ← llm.plan_research state.ticket (category_or_other state.category) state.order_id
    let outcome =
        research_from P catalog (slice_to settings.max_tool_rounds requests)
          (state.facts, state.tool_calls)
    pure (record state { facts = outcome.0; tool_calls = outcome.1 })

  unfoldable pub responder : CaseState → Action llm.Model CaseState
  responder state = do
    draft ←
        llm.draft state.ticket (category_or_other state.category) state.facts state.review_feedback
    pure (record state { draft = some (redact_pii P.unicode (some draft)) })

  abbrev pub approved_state : CaseState → CaseState
  approved_state state = record state {
    iterations = suc state.iterations;
    decision = some Decision.resolved;
    review_feedback = none;
  }

  abbrev pub feedback_of : Verdict → String
  feedback_of verdict = or_else (truthy verdict.feedback) "Reviewer did not approve this draft."

  abbrev pub escalation_of : ℕ → String → String
  escalation_of iterations feedback =
      "Not approved after " <> (show iterations <> (" review pass(es): " <> feedback))

  abbrev pub rejected_state : CaseState → String → CaseState
  rejected_state state feedback =
      if reaches (suc state.iterations) settings.max_review_iterations
      then record state {
        iterations = suc state.iterations;
        review_feedback = some feedback;
        decision = some Decision.escalate;
        escalation_reason = some (escalation_of (suc state.iterations) feedback);
      }
      else record state { iterations = suc state.iterations; review_feedback = some feedback }

  abbrev pub judged_state : CaseState → Verdict → CaseState
  judged_state state verdict =
      if verdict.approved then approved_state state else rejected_state state (feedback_of verdict)

  unfoldable pub reviewer : CaseState → Action llm.Model CaseState
  reviewer state = do
    verdict ← llm.review state.ticket (text_or_empty state.draft) state.facts
    pure (judged_state state verdict)

-- Where `route_after_review` sends the case: to `END`, or back to the responder.
pub data Route : Type 0 where
  finish retry : Route

abbrev pub decided_resolved : Option Decision → Bool
decided_resolved none = false
decided_resolved (some d) = is_resolved d

unfoldable pub route_after_review : Settings → CaseState → Route
route_after_review settings state =
    if decided_resolved state.decision
    then Route.finish
    else if reaches state.iterations settings.max_review_iterations
    then Route.finish
    else Route.retry
