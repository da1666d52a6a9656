-- ===== src/Service/Concurrent.antt =====
-- Requests at the same time (service.py): FastAPI serves them from a pool of threads, and each
-- statement of the database and each update of a metric is one step. What a request writes is the
-- list of its steps, in the order in which service.py takes them.
pub mod Sequential
pub mod Interleaving
pub mod Totals
pub mod Balance
pub mod Counters
pub mod Orders
pub mod Trails
pub mod Isolation
pub mod Recorded
use deskfleet_ticketwarden.Base.{
  ℕ, String, Option, none, some, List, [], ◌∷◌, ◌++◌, ◌&&◌, ◌<>◌, true, false, Bool, if◌then◌else◌,
}
use deskfleet_ticketwarden.Action.{Result, ok, raised}
use deskfleet_ticketwarden.Platform.{Platform}
use deskfleet_ticketwarden.Vocabulary.{Decision, ToolStatus, SecurityEventType, is_resolved}
use deskfleet_ticketwarden.Registry.{ToolRecord}
use deskfleet_ticketwarden.Storage.{
  TicketRow, insert_ticket, insert_tool_call, insert_security_event,
}
use deskfleet_ticketwarden.Metrics.{
  record_tool_call, record_security_event, record_decision, record_latency, record_tokens,
  record_cost, record_llm_calls, record_token_source,
}
use deskfleet_ticketwarden.Costing.{estimate_cost}
use deskfleet_ticketwarden.Pii.{redact_pii}
use deskfleet_ticketwarden.Injection.{detect_injection}
use deskfleet_ticketwarden.Injection.Leak.{detect_prompt_leak}
use deskfleet_ticketwarden.Usage.{UsageCollector, new_collector}
use deskfleet_ticketwarden.Graph.State.{CaseState}
use deskfleet_ticketwarden.Service.Effects.{World, row_of}
use deskfleet_ticketwarden.Service.Resolve.{
  Environment, Moment, Invoke, ResolveRequest, ResolveResponse, initial_state, final_of,
  leak_reason, elapsed, ticket_id, refused_state, refusal_response, redact_reply, decision_of,
  account, response_of, round_latency,
}

-- One statement of the database, or one update of a metric.
pub data Write : Type 0 where
  put_ticket : TicketRow → Write
  put_call : ℕ → String → ToolRecord → Write
  put_event : ℕ → String → SecurityEventType → Option String → Write
  count_call : String → ToolStatus → Write
  count_event : SecurityEventType → Write
  count_decision : Decision → Write
  observe_latency : ℕ → Write
  count_tokens : ℕ → ℕ → Write
  count_cost : ℕ → Write
  count_llm_calls : ℕ → Write
  count_token_source : String → Write

unfoldable pub perform : Platform → Write → World → World
unfolding insert_ticket insert_tool_call insert_security_event record_tool_call
    record_security_event record_decision record_latency record_tokens record_cost record_llm_calls
    record_token_source
perform P (put_ticket row) w = record w { db = insert_ticket row w.db }
perform P (put_call now id call) w = record w {
  db = insert_tool_call P now id call.tool_name call.args call.result call.status w.db;
}
perform P (put_event now id event detail) w = record w {
  db = insert_security_event now id event detail w.db;
}
perform P (count_call name status) w = record w { metrics = record_tool_call name status w.metrics }
perform P (count_event event) w = record w { metrics = record_security_event event w.metrics }
perform P (count_decision d) w = record w { metrics = record_decision d w.metrics }
perform P (observe_latency ns) w = record w { metrics = record_latency ns w.metrics }
perform P (count_tokens prompt completion) w = record w {
  metrics = record_tokens prompt completion w.metrics;
}
perform P (count_cost usd) w = record w { metrics = record_cost usd w.metrics }
perform P (count_llm_calls n) w = record w { metrics = record_llm_calls n w.metrics }
perform P (count_token_source s) w = record w { metrics = record_token_source s w.metrics }

unfoldable pub perform_all : Platform → List Write → World → World
unfolding perform
perform_all P [] w = w
perform_all P (x ∷ xs) w = perform_all P xs (perform P x w)

-- The writes of `_log_security_event` and `_persist`.
module _ (now : ℕ) (id : String) where
  abbrev pub event_writes : SecurityEventType → Option String → List Write
  event_writes event detail = put_event now id event detail ∷ count_event event ∷ []

  abbrev pub status_writes : ToolStatus → String → List Write
  status_writes ToolStatus.blocked name =
      event_writes SecurityEventType.tool_blocked (some ("tool=" <> name))
  status_writes ToolStatus.sanitized name =
      event_writes SecurityEventType.tool_output_sanitized (some ("tool=" <> name))
  status_writes ToolStatus.ok name = []
  status_writes ToolStatus.error name = []

  abbrev pub call_writes : ToolRecord → List Write
  call_writes call =
      put_call now id call
      ∷ count_call call.tool_name call.status
      ∷ status_writes call.status call.tool_name

  unfoldable pub calls_writes : List ToolRecord → List Write
  calls_writes [] = []
  calls_writes (call ∷ calls) = call_writes call ++ calls_writes calls

-- What `resolve_case` writes, with what it returns.
module _ (env : Environment) (at : Moment) where
  abbrev pub persist_writes : CaseState → ℕ → ℕ → List Write
  persist_writes state latency cost =
      put_ticket (row_of env.platform at.now (ticket_id env at) state latency cost)
      ∷ calls_writes at.now (ticket_id env at) state.tool_calls

  abbrev pub refuse_writes : String → Option String → List Write
  refuse_writes redacted reason =
      persist_writes (refused_state env at redacted reason) (elapsed env at) 0
      ++ (event_writes at.now (ticket_id env at) SecurityEventType.injection_refused reason
          ++ count_decision Decision.refuse ∷ observe_latency (elapsed env at) ∷ [])

  abbrev pub withhold_writes : Bool → Option String → CaseState → Decision → CaseState × List Write
  withhold_writes true pattern final decision = (
    record final {
      decision = some Decision.escalate;
      escalation_reason = some (leak_reason pattern);
      draft = none;
    },
    event_writes at.now (ticket_id env at) SecurityEventType.outbound_leak_blocked pattern,
  )
  withhold_writes false pattern final decision = (record final { decision = some decision }, [])

  abbrev pub guard_writes : CaseState → CaseState × List Write
  guard_writes final =
      let reply = redact_reply env at final.draft in
      let decision = decision_of env at final in
      let (is_leak, pattern) = detect_prompt_leak env.platform.unicode reply in
      withhold_writes (is_leak && is_resolved decision) pattern (record final { draft = reply })
        decision

  abbrev pub conclude_writes :
      UsageCollector → CaseState → ℕ × ℕ × String → ResolveResponse × List Write
  conclude_writes k final (prompt, completion, source) =
      let cost =
        estimate_cost env.lower prompt completion env.settings.llm_model
          env.settings.llm_provider in
      (
        response_of env at final cost,
        count_token_source source
            ∷ (persist_writes final (round_latency (elapsed env at)) cost
                ++ count_decision (decision_of env at final)
                  ∷ observe_latency (elapsed env at)
                  ∷ count_tokens prompt completion
                  ∷ count_cost cost
                  ∷ count_llm_calls k.llm_calls
                  ∷ []),
      )

  abbrev pub finish_writes :
      UsageCollector → CaseState → Result (ℕ × ℕ × String) → Result ResolveResponse × List Write
  finish_writes k final (raised e) = (raised e, [])
  finish_writes k final (ok counts) =
      let (resp, writes) = conclude_writes k final counts in (ok resp, writes)

  abbrev pub answer_writes : Invoke → String → Option String → Result ResolveResponse × List Write
  answer_writes invoke redacted order_id =
      let initial = initial_state (ticket_id env at) redacted order_id in
      let (r, k) = invoke initial new_collector in
      let (final, events) = guard_writes (final_of initial r) in
      let (out, writes) = finish_writes k final (account env at k redacted final.draft) in
      (out, events ++ writes)

  unfoldable pub resolve_case_writes : Invoke → ResolveRequest → Result ResolveResponse × List Write
  resolve_case_writes invoke request =
      let redacted = redact_pii env.platform.unicode (some request.ticket) in
      let (is_inj, reason) = detect_injection env.platform.unicode redacted in
      if is_inj
      then (ok (refusal_response env at reason), refuse_writes redacted reason)
      else answer_writes invoke redacted request.order_id
