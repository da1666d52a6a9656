-- ===== src/Service/Concurrent/Sequential.antt =====
-- A request that runs alone (`resolve_case` of service.py): its writes, one after the other.
use mathlib.Core.Bool.{false, true}
use mathlib.Core.List.{[]}
use deskfleet_ticketwarden.Service.Effects.{
  log_status, persist_call, log_security_event, persist_calls, persist,
}
use deskfleet_ticketwarden.Service.Resolve.{
  withhold, finish, guard_outbound, refuse, answer, conclude, resolve_case,
}
use deskfleet_ticketwarden.Base.{
  inr, inl, Bool-cases, some, ◌∷◌, Option, ◌≡◌, ℕ, String, Bool, List, refl, sym, ap, ◌∙◌, ◌++◌,
}
use deskfleet_ticketwarden.Service.Concurrent.{
  account, final_of, response_of, guard_writes, record_token_source, new_collector, initial_state,
  round_latency, estimate_cost, answer_writes, elapsed, refused_state, detect_injection,
  refuse_writes, raised, redact_pii, withhold_writes, status_writes, refusal_response,
  ResolveRequest, finish_writes, ToolRecord, ok, persist_writes, Decision, ToolStatus, Invoke,
  ticket_id, Result, calls_writes, UsageCollector, CaseState, World, resolve_case_writes,
  perform_all, Moment, Platform, Environment, Write, perform,
}

module _ (P : Platform) where
  pub perform_all-append :
      (xs ys : List Write) (w : World)
      → perform_all P (xs ++ ys) w ≡ perform_all P ys (perform_all P xs w)
  unfolding perform_all
  perform_all-append [] ys w = refl
  perform_all-append (x ∷ xs) ys w = perform_all-append xs ys (perform P x w)

  log_status-writes :
      (now : ℕ) (id : String) (status : ToolStatus) (name : String) (w : World)
      → log_status P now id status name w ≡ perform_all P (status_writes now id status name) w
  unfolding perform_all log_security_event
  log_status-writes now id ToolStatus.blocked name w = refl
  log_status-writes now id ToolStatus.sanitized name w = refl
  log_status-writes now id ToolStatus.ok name w = refl
  log_status-writes now id ToolStatus.error name w = refl

  persist_calls-writes :
      (now : ℕ) (id : String) (calls : List ToolRecord) (w : World)
      → persist_calls P now id calls w ≡ perform_all P (calls_writes now id calls) w
  unfolding perform_all persist_calls persist_call calls_writes
  persist_calls-writes now id [] w = refl
  persist_calls-writes now id (call ∷ calls) w =
      persist_calls-writes now id calls (persist_call P now id call w)
      ∙ ap (perform_all P (calls_writes now id calls))
          (log_status-writes now id call.status call.tool_name _)
      ∙ sym (perform_all-append (status_writes now id call.status call.tool_name) _ _)

module _ (env : Environment) (at : Moment) where
  persist-writes :
      (state : CaseState) (latency cost : ℕ) (w : World)
      → persist env.platform at.now (ticket_id env at) state latency cost w
        ≡ perform_all env.platform (persist_writes env at state latency cost) w
  unfolding perform_all persist
  persist-writes state latency cost w =
      persist_calls-writes env.platform at.now (ticket_id env at) state.tool_calls _

  refuse-writes :
      (ticket : String) (reason : Option String) (w : World)
      → refuse env at ticket reason w ≡ (
        ok (refusal_response env at reason),
        perform_all env.platform (refuse_writes env at ticket reason) w,
      )
  unfolding perform_all refuse log_security_event
  refuse-writes ticket reason w =
      rw (persist-writes (refused_state env at ticket reason) (elapsed env at) 0 w) (
        ap (λ v. (ok (refusal_response env at reason), v))
          (sym (
            perform_all-append env.platform
              (persist_writes env at (refused_state env at ticket reason) (elapsed env at) 0) _ w)))

  withhold-writes :
      (b : Bool) (pattern : Option String) (f : CaseState) (d : Decision) (w : World)
      → let (g, writes) = withhold_writes env at b pattern f d in
        withhold env at b pattern f d w ≡ (g, perform_all env.platform writes w)
  unfolding perform_all log_security_event
  withhold-writes true pattern f d w = refl
  withhold-writes false pattern f d w = refl

  finish-writes :
      (k : UsageCollector) (f : CaseState) (counts : Result (ℕ × ℕ × String)) (w : World)
      → let (out, writes) = finish_writes env at k f counts in
        finish env at k f counts w ≡ (out, perform_all env.platform writes w)
  unfolding perform_all conclude
  finish-writes k f (raised e) w = refl
  finish-writes k f (ok (prompt, completion, source)) w =
      let cost =
        estimate_cost env.lower prompt completion env.settings.llm_model
          env.settings.llm_provider in
      let latency = round_latency (elapsed env at) in
      let w₁ : World = record w { metrics = record_token_source source w.metrics } in
      rw (persist-writes f latency cost w₁) (
        ap (λ v. (ok (response_of env at f cost), v))
          (sym (perform_all-append env.platform (persist_writes env at f latency cost) _ w₁)))

  answer-writes :
      (invoke : Invoke) (ticket : String) (order_id : Option String) (w : World)
      → let (out, writes) = answer_writes env at invoke ticket order_id in
        answer env at invoke ticket order_id w ≡ (out, perform_all env.platform writes w)
  unfolding answer guard_outbound
  answer-writes invoke ticket order_id w =
      let (r, k) = invoke (initial_state (ticket_id env at) ticket order_id) new_collector in
      let (g, events) =
        guard_writes env at (final_of (initial_state (ticket_id env at) ticket order_id) r) in
      let counts = account env at k ticket g.draft in
      rw (withhold-writes _ _ _ _ w) (
        finish-writes k g counts (perform_all env.platform events w)
        ∙ ap (λ v. ((finish_writes env at k g counts).0, v))
            (sym (perform_all-append env.platform events _ w)))

-- Run alone, a request does to the database and the metrics what its writes do in their order, and
-- returns what goes with them.
pub resolve_case-writes :
    (env : Environment) (at : Moment) (invoke : Invoke) (request : ResolveRequest) (w : World)
    → let (out, writes) = resolve_case_writes env at invoke request in
      resolve_case env at invoke request w ≡ (out, perform_all env.platform writes w)
unfolding resolve_case resolve_case_writes
resolve_case-writes env at invoke request w =
    let ticket = redact_pii env.platform.unicode (some request.ticket) in
    let (is_inj, reason) = detect_injection env.platform.unicode ticket in
    elim (Bool-cases is_inj) [
      | inl refused ↦ rw refused (refuse-writes env at ticket reason w)
      | inr passed ↦ rw passed (answer-writes env at invoke ticket request.order_id w)
    ]
