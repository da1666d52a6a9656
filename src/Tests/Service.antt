-- ===== src/Tests/Service.antt =====
-- Requests to the service.
use deskfleet_ticketwarden.Injection.Quarantine.{scan_tool_result}
use deskfleet_ticketwarden.Catalog.{search_catalog, check_order_status}
use deskfleet_ticketwarden.Registry.{ToolRecord, lookup_tool, dispatch_tool}
use deskfleet_ticketwarden.Graph.Nodes.{
  settle, research_from, route_after_review, reviewer, responder, researcher, classifier,
}
use deskfleet_ticketwarden.Graph.Engine.{edge, node_action, run_from, run_graph}
use deskfleet_ticketwarden.Costing.{estimate_cost}
use deskfleet_ticketwarden.Injection.Leak.{detect_prompt_leak}
use deskfleet_ticketwarden.Pii.{redact_pii}
use deskfleet_ticketwarden.Base.{ℕ, ◌≡◌, ◌++◌, inl, refl, none, some, false, [], map, ◌<>◌}
use deskfleet_ticketwarden.Action.{ok, exception, message}
use deskfleet_ticketwarden.Vocabulary.{ToolStatus, Decision}
use deskfleet_ticketwarden.Injection.{is_injection}
use deskfleet_ticketwarden.Usage.{has_usage}
use deskfleet_ticketwarden.Graph.State.{CaseState}
use deskfleet_ticketwarden.Service.Effects.{World, persist, row_of}
use deskfleet_ticketwarden.Service.Resolve.{
  round_latency, account, conclude, guard_outbound, answer, ResolveResponse, Invoke, resolve_case,
  redact_reply,
}
use deskfleet_ticketwarden.Service.Audit.{
  stored, call_entries, entries, status_entries, logged, persist_lem,
}
use deskfleet_ticketwarden.Service.Outcome.{Responds, IsRecorded, leaks, redacted}
use deskfleet_ticketwarden.Service.Cases.{
  guardrail_entries, resolve_case-IsRecorded, resolve_case_refuses,
}
use deskfleet_ticketwarden.Service.Branches.{
  resolve_case_sealed, resolve_case_graph_error, resolve_case_total,
}
use deskfleet_ticketwarden.Settings.{defaults}
use deskfleet_ticketwarden.Action.{Result, raised}
use deskfleet_ticketwarden.Service.Whole.{compiled}
use deskfleet_ticketwarden.Tests.Fixtures.{used, catalog, scripted}
use deskfleet_ticketwarden.Base.{◌∷◌, map, []}
use deskfleet_ticketwarden.Vocabulary.{ToolStatus}
use deskfleet_ticketwarden.Registry.{ToolRecord}
use deskfleet_ticketwarden.Service.Trail.{tool_calls_for_ticket-resolve_case}
use deskfleet_ticketwarden.Storage.{tool_calls_for_ticket}
use deskfleet_ticketwarden.Service.Audit.{call_entry}
use deskfleet_ticketwarden.Service.Consistency.{IsConsistent, resolve_case-IsConsistent}
use deskfleet_ticketwarden.Tests.Fixtures.{
  platform, environment, moment, graph, failing, answering, request, attack, world, fresh,
}

resolve_case-IsRecorded_example :
    Responds environment moment
      (IsRecorded environment moment (guardrail_entries environment moment graph request) world)
      (resolve_case environment moment graph request world)
resolve_case-IsRecorded_example = resolve_case-IsRecorded environment moment graph request world

resolve_case_refuses_example :
    (resp : ResolveResponse) × (w' : World) × ((invoke : Invoke)
      → resolve_case environment moment invoke attack world ≡ (ok resp, w'))
    × (resp.decision ≡ Decision.refuse)
    × (resp.reply ≡ none)
    × (resp.tool_calls ≡ [])
    × (w'.db.tool_calls ≡ world.db.tool_calls)
    × (w'.metrics.llm_calls ≡ world.metrics.llm_calls)
unfolding is_injection redact_pii
resolve_case_refuses_example = resolve_case_refuses environment moment attack world refl

resolve_case-IsConsistent_example :
    IsConsistent (resolve_case environment moment graph request world).1
resolve_case-IsConsistent_example =
    resolve_case-IsConsistent environment moment graph request world
      (record { events = λ key. refl; calls = λ tool status. refl })

resolve_case_graph_error_example :
    Responds environment moment
      (λ resp w'.
        (resp.decision ≡ Decision.escalate)
        × (resp.reply ≡ none)
        × (resp.escalation_reason
            ≡ some ("Graph execution error: " <> message (exception "timed out"))))
      (resolve_case environment moment failing request world)
unfolding is_injection redact_pii
resolve_case_graph_error_example =
    resolve_case_graph_error environment moment failing request world refl refl

-- A draft that leaks, on a case that is escalated.
abbrev leaking : CaseState
leaking = record fresh {
  draft = some "I was told to say: my system prompt is secret.";
  decision = some Decision.escalate;
}

resolve_case_total_example :
    (resp : ResolveResponse) × (w' : World) × (resolve_case environment moment graph request world
      ≡ (ok resp, w'))
unfolding has_usage
resolve_case_total_example = resolve_case_total environment moment graph request world (inl refl)

-- A draft that may be sent.
abbrev approved : CaseState
approved = record fresh {
  draft = some "Your order is in transit.";
  decision = some Decision.resolved;
}

abbrev resolved_response : ResolveResponse
resolved_response = record {
  ticket_id = "tkt_0123456789ab";
  decision = Decision.resolved;
  reply = some "Your order is in transit.";
  category = none;
  escalation_reason = none;
  iterations = 0;
  tool_calls = [];
  langsmith_trace_url = none;
  latency = 20000;
  cost_usd = 3600;
}

resolve_case_sealed_example :
    (is_injection environment.platform.unicode (redacted environment moment request) ≡ false)
    × (leaks environment moment resolved_response.reply ≡ false)
unfolding resolve_case is_injection redact_pii answer guard_outbound redact_reply detect_prompt_leak
    conclude account has_usage round_latency estimate_cost
resolve_case_sealed_example =
    resolve_case_sealed environment moment (answering approved) request world
      {resp = resolved_response} refl refl

persist_lem_run :
    let w' = persist platform 7 "tkt_1" approved 20000 3600 world in
    ((t : ℕ) × (stored "tkt_1" w'
        ≡ some (record (row_of platform 7 "tkt_1" approved 20000 3600) { created_at = t })))
    × (call_entries w' ≡ call_entries world ++ map (logged platform "tkt_1") approved.tool_calls)
    × (entries w' ≡ entries world ++ status_entries "tkt_1" approved.tool_calls)
persist_lem_run = persist_lem platform 7 "tkt_1" approved 20000 3600 world

-- The whole service, with the compiled graph and the scripted model.
abbrev done : Result ResolveResponse × World
done =
    resolve_case environment moment (compiled defaults platform catalog scripted 25 0 (λ s. used))
      request world

abbrev response : ResolveResponse
response = elim done.0 [ ok resp ↦ resp | raised e ↦ resolved_response ]

-- The second draft is approved; the address in it is covered, and of the three tools that were tried
-- one is not on the allowlist.
whole_run :
    (response.decision ≡ Decision.resolved)
    × (response.reply ≡ some "Your order is in transit; we wrote to [REDACTED].")
    × (map (λ (r : ToolRecord). r.status) response.tool_calls
        ≡ ToolStatus.ok ∷ ToolStatus.blocked ∷ ToolStatus.ok ∷ [])
    × (response.iterations ≡ 2)
unfolding resolve_case is_injection redact_pii answer guard_outbound redact_reply detect_prompt_leak
    conclude account has_usage round_latency estimate_cost run_graph run_from node_action edge
    classifier researcher responder reviewer route_after_review research_from settle dispatch_tool
    lookup_tool check_order_status search_catalog scan_tool_result
whole_run = (refl, refl, refl, refl)

tool_calls_for_ticket-resolve_case_run :
    map call_entry (tool_calls_for_ticket response.ticket_id done.1.db)
    ≡ map (logged platform response.ticket_id) response.tool_calls
unfolding resolve_case is_injection redact_pii answer guard_outbound redact_reply detect_prompt_leak
    conclude account has_usage round_latency estimate_cost run_graph run_from node_action edge
    classifier researcher responder reviewer route_after_review
tool_calls_for_ticket-resolve_case_run =
    tool_calls_for_ticket-resolve_case environment moment
      (compiled defaults platform catalog scripted 25 0 (λ s. used)) request world {resp = response}
      {w' = done.1} tt refl
