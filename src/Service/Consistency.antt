-- ===== src/Service/Consistency.antt =====
-- The metrics of service.py against its two logs: a counter, and the rows that it stands for.
use deskfleet_ticketwarden.Base.{
  some, ℕ, Bool, true, false, ◌≡◌, String, Option, List, [], ◌∷◌, count, count-concat, str_eq,
  arith, ◌&&◌, Bool-cases, inl, inr,
}
use deskfleet_ticketwarden.Action.{Result, ok, raised}
use deskfleet_ticketwarden.Platform.{Platform}
use deskfleet_ticketwarden.Vocabulary.{
  ToolStatus, status_value, SecurityEventType, event_value, Decision,
}
use deskfleet_ticketwarden.Registry.{ToolRecord}
use deskfleet_ticketwarden.Storage.{
  ToolCallRow, SecurityEventRow, insert_ticket, insert_tool_call, insert_security_event,
}
use deskfleet_ticketwarden.Metrics.{
  record_tool_call, record_security_event, record_decision, record_latency, record_tokens,
  record_cost, record_llm_calls, record_token_source,
}
use deskfleet_ticketwarden.Injection.{detect_injection}
use deskfleet_ticketwarden.Pii.{redact_pii}
use deskfleet_ticketwarden.Usage.{UsageCollector}
use deskfleet_ticketwarden.Graph.State.{CaseState}
use deskfleet_ticketwarden.Service.Effects.{
  World, log_security_event, log_status, persist_call, persist_calls, persist,
}
use deskfleet_ticketwarden.Service.Resolve.{
  Environment, Moment, Invoke, ResolveRequest, ticket_id, resolve_case, answer, refuse, finish,
  conclude, guard_outbound, withhold, decision_of, refused_state, elapsed,
}

pub record IsConsistent (w : World) : Type 0 where
  pub events :
      (key : String)
      → w.metrics.security_events key
        ≡ count
            (λ (r : SecurityEventRow). str_eq (event_value r.event_type) key)
            w.db.security_events
  pub calls :
      (tool status : String)
      → w.metrics.tool_calls tool status
        ≡ count
            (λ (r : ToolCallRow). str_eq r.tool_name tool && str_eq (status_value r.status) status)
            w.db.tool_calls

module _ (P : Platform) (now : ℕ) (id : String) where
  log_security_event-IsConsistent :
      (event : SecurityEventType) (detail : Option String) (w : World)
      → IsConsistent w
      → IsConsistent (log_security_event P now id event detail w)
  unfolding log_security_event insert_security_event record_security_event
  log_security_event-IsConsistent event detail w c = record {
    events = λ key. rw (count-concat, c.events key);
    calls = c.calls;
  }

  log_status-IsConsistent :
      (status : ToolStatus) (name : String) (w : World)
      → IsConsistent w
      → IsConsistent (log_status P now id status name w)
  log_status-IsConsistent ToolStatus.blocked name w c = log_security_event-IsConsistent _ _ w c
  log_status-IsConsistent ToolStatus.sanitized name w c = log_security_event-IsConsistent _ _ w c
  log_status-IsConsistent ToolStatus.ok name w c = c
  log_status-IsConsistent ToolStatus.error name w c = c

  persist_call-IsConsistent :
      (call : ToolRecord) (w : World) → IsConsistent w → IsConsistent (persist_call P now id call w)
  unfolding persist_call insert_tool_call record_tool_call
  persist_call-IsConsistent call w c =
      log_status-IsConsistent call.status call.tool_name _ (record {
        events = c.events;
        calls = λ tool status. rw (count-concat, c.calls tool status);
      })

  persist_calls-IsConsistent :
      (calls : List ToolRecord) (w : World)
      → IsConsistent w
      → IsConsistent (persist_calls P now id calls w)
  unfolding persist_calls
  persist_calls-IsConsistent [] w c = c
  persist_calls-IsConsistent (call ∷ calls) w c =
      persist_calls-IsConsistent calls (persist_call P now id call w)
        (persist_call-IsConsistent call w c)

  persist-IsConsistent :
      (state : CaseState) (latency cost : ℕ) (w : World)
      → IsConsistent w
      → IsConsistent (persist P now id state latency cost w)
  unfolding persist insert_ticket
  persist-IsConsistent state latency cost w c =
      persist_calls-IsConsistent state.tool_calls _ (record { events = c.events; calls = c.calls })

module _ (env : Environment) (at : Moment) where
  refuse-IsConsistent :
      (ticket : String) (reason : Option String) (w : World)
      → IsConsistent w
      → IsConsistent (refuse env at ticket reason w).1
  unfolding refuse record_decision record_latency
  refuse-IsConsistent ticket reason w c =
      let c₁ =
        persist-IsConsistent env.platform at.now (ticket_id env at)
          (refused_state env at ticket reason) (elapsed env at) 0 w c in
      let c₂ =
        log_security_event-IsConsistent env.platform at.now (ticket_id env at)
          SecurityEventType.injection_refused reason _ c₁ in
      record { events = c₂.events; calls = c₂.calls }

  withhold-IsConsistent :
      (b : Bool) (pattern : Option String) (f : CaseState) (d : Decision) (w : World)
      → IsConsistent w
      → IsConsistent (withhold env at b pattern f d w).1
  withhold-IsConsistent true pattern f d w c = log_security_event-IsConsistent _ _ _ _ _ w c
  withhold-IsConsistent false pattern f d w c = c

  record_usage-IsConsistent :
      (prompt completion cost calls latency : ℕ) (d : Decision) (w : World)
      → IsConsistent w
      → IsConsistent (record w {
        metrics = record_llm_calls calls (
            record_cost cost (
              record_tokens prompt completion
                (record_latency latency (record_decision d w.metrics))));
      })
  unfolding record_llm_calls record_cost record_tokens record_latency record_decision
  record_usage-IsConsistent prompt completion cost calls latency d w c = record {
    events = λ key. ground (arith, c.events key);
    calls = λ tool status. ground (arith, c.calls tool status);
  }

  finish-IsConsistent :
      (k : UsageCollector) (f : CaseState) (counts : Result (ℕ × ℕ × String)) (w : World)
      → IsConsistent w
      → IsConsistent (finish env at k f counts w).1
  unfolding conclude record_token_source
  finish-IsConsistent k f (raised e) w c = c
  finish-IsConsistent k f (ok (prompt, completion, source)) w c =
      record_usage-IsConsistent prompt completion _ k.llm_calls (elapsed env at)
        (decision_of env at f) _
        (persist-IsConsistent env.platform at.now (ticket_id env at) f _ _ _
          (record { events = c.events; calls = c.calls }))

-- Every request, also one that ends in a raise, keeps the counters of security events and of tool
-- calls equal to the number of rows with the same labels in the two logs.
pub resolve_case-IsConsistent :
    (env : Environment) (at : Moment) (invoke : Invoke) (request : ResolveRequest) (w : World)
    → IsConsistent w
    → IsConsistent (resolve_case env at invoke request w).1
unfolding resolve_case answer guard_outbound
resolve_case-IsConsistent env at invoke request w c =
    let ticket = redact_pii env.platform.unicode (some request.ticket) in
    let (is_inj, reason) = detect_injection env.platform.unicode ticket in
    elim (Bool-cases is_inj) [
      | inl refused ↦ rw refused (refuse-IsConsistent env at ticket reason w c)
      | inr passed ↦
          rw passed (finish-IsConsistent env at _ _ _ _ (withhold-IsConsistent env at _ _ _ _ w c))
    ]
