-- ===== src/Service/Cases.antt =====
-- Every case of `resolve_case` (service.py), and the cases that are refused.
use deskfleet_ticketwarden.Injection.Score.{is_injection-first}
use deskfleet_ticketwarden.Storage.{insert_security_event, insert_ticket}
use mathlib.Core.List.{append-nil}
use deskfleet_ticketwarden.Base.{
  true, ◌≡◌, refl, ap, sym, ◌∙◌, String, Option, none, List, [], ◌∷◌, ◌++◌, map, if◌then◌else◌,
  Bool-cases, inl, inr,
}
use deskfleet_ticketwarden.Action.{ok}
use deskfleet_ticketwarden.Vocabulary.{Decision, SecurityEventType}
use deskfleet_ticketwarden.Injection.{detect_injection, is_injection}
use deskfleet_ticketwarden.Metrics.{record_latency, record_decision, record_security_event}
use deskfleet_ticketwarden.Service.Effects.{
  log_security_event, persist_calls, World, persist, row_of,
}
use deskfleet_ticketwarden.Service.Audit.{
  Entry, call_entry, persist_lem, log_security_event-entries, log_security_event-rest,
}
use deskfleet_ticketwarden.Service.Resolve.{
  refusal_response, ResolveRequest, ResolveResponse, Environment, Moment, Invoke, ticket_id,
  elapsed, refuse, refused_state, resolve_case, answer,
}
use deskfleet_ticketwarden.Service.Outcome.{
  Responds, weaken, IsRecorded, redacted, leak_entries, final_state, answer_lem,
}

module _ (env : Environment) (at : Moment) where
  pub refuse-IsRecorded :
      (ticket : String) (reason : Option String) (w : World)
      → Responds env at
          (λ resp w'.
            IsRecorded env at
              ((ticket_id env at, SecurityEventType.injection_refused, reason) ∷ [])
              w
              resp
              w'
            × (resp.decision ≡ Decision.refuse)
            × (resp.reply ≡ none))
          (refuse env at ticket reason w)
  unfolding refuse
  refuse-IsRecorded ticket reason w =
      let state = refused_state env at ticket reason in
      let P = env.platform in
      let id = ticket_id env at in
      let wp = persist P at.now id state (elapsed env at) 0 w in
      let (row, calls, events) = persist_lem P at.now id state (elapsed env at) 0 w in
      let event = SecurityEventType.injection_refused in
      let (same_calls, same_tickets) = log_security_event-rest P at.now id event reason wp in
      let recorded : IsRecorded env at ((id, event, reason) ∷ []) w _ _ = record {
        named = refl;
        row = record (row_of P at.now id state (elapsed env at) 0) { created_at = row.0 };
        found = rw same_tickets row.1;
        agrees = record {
          decision = refl;
          reply = refl;
          category = refl;
          escalation_reason = refl;
          iterations = refl;
          cost = refl;
        };
        calls = ap (map call_entry) same_calls ∙ calls;
        events =
            log_security_event-entries P at.now id event reason wp
            ∙ ap (λ (es : List Entry). es ++ (id, event, reason) ∷ []) (events ∙ append-nil _)
            ∙ sym (append-nil _);
      } in
      (recorded, refl, refl)

  -- The entries that the guardrails around the graph log for a request.
  abbrev pub guardrail_entries : Invoke → ResolveRequest → List Entry
  guardrail_entries invoke request =
      let ticket = redacted env at request in
      let (is_inj, reason) = detect_injection env.platform.unicode ticket in
      if is_inj
      then (ticket_id env at, SecurityEventType.injection_refused, reason) ∷ []
      else leak_entries env at (final_state env at invoke ticket request.order_id)

-- Every response is backed by what is stored: its case is found under its id with the same
-- decision, reply, category, reason, iterations and cost, its tool calls are the new rows of the
-- tool-call log in order, and the new rows of the security log are those of the guardrails followed
-- by one for each blocked or sanitized call, whatever the graph did.
pub resolve_case-IsRecorded :
    (env : Environment) (at : Moment) (invoke : Invoke) (request : ResolveRequest) (w : World)
    → Responds env at
        (IsRecorded env at (guardrail_entries env at invoke request) w)
        (resolve_case env at invoke request w)
unfolding resolve_case
resolve_case-IsRecorded env at invoke request w =
    let ticket = redacted env at request in
    let (is_inj, reason) = detect_injection env.platform.unicode ticket in
    elim (Bool-cases is_inj) [
      | inl refused ↦ rw refused (
          weaken env at _ _ (refuse env at ticket reason w) (λ resp w' h. h.0)
            (refuse-IsRecorded env at ticket reason w))
      | inr passed ↦ rw passed (
          weaken env at _ _ (answer env at invoke ticket request.order_id w) (λ resp w' h. h.0)
            (answer_lem env at invoke ticket request.order_id w))
    ]

refuse_rest :
    (env : Environment) (at : Moment) (ticket : String) (reason : Option String) (w : World)
    → let w' = (refuse env at ticket reason w).1 in
      (w'.db.tool_calls ≡ w.db.tool_calls) × (w'.metrics.llm_calls ≡ w.metrics.llm_calls)
unfolding refuse persist persist_calls insert_ticket log_security_event insert_security_event
    record_security_event record_decision record_latency
refuse_rest env at ticket reason w = (refl, refl)

-- A text that is refused never reaches the graph: for every graph the outcome is the same, a
-- response that refuses, without a reply and without tool calls, which leaves the tool-call log and
-- the counter of model calls as they were.
pub resolve_case_refuses :
    (env : Environment) (at : Moment) (request : ResolveRequest) (w : World)
    → is_injection env.platform.unicode (redacted env at request) ≡ true
    → (resp : ResolveResponse) × (w' : World) × ((invoke : Invoke)
        → resolve_case env at invoke request w ≡ (ok resp, w'))
      × (resp.decision ≡ Decision.refuse)
      × (resp.reply ≡ none)
      × (resp.tool_calls ≡ [])
      × (w'.db.tool_calls ≡ w.db.tool_calls)
      × (w'.metrics.llm_calls ≡ w.metrics.llm_calls)
unfolding resolve_case refuse
resolve_case_refuses env at request w h =
    let ticket = redacted env at request in
    let reason = (detect_injection env.platform.unicode ticket).1 in
    let done = refuse env at ticket reason w in
    let refused : (detect_injection env.platform.unicode ticket).0 ≡ true =
      sym (is_injection-first env.platform.unicode ticket) ∙ h in
    let (calls, llm_calls) = refuse_rest env at ticket reason w in
    (
      refusal_response env at reason,
      done.1,
      λ invoke. rw refused,
      refl,
      refl,
      refl,
      calls,
      llm_calls,
    )
