-- ===== src/Service/Concurrent/Balance.antt =====
-- Every request (service.py) counts what it stores: as many updates of a counter as rows that the
-- counter stands for.
use deskfleet_ticketwarden.Service.Concurrent.Totals.{
  grand_total-same, total-Merges, total, total-append,
}
use deskfleet_ticketwarden.Vocabulary.{event_value, status_value}
use deskfleet_ticketwarden.Base.{
  inr, inl, Bool-cases, some, Option, ℕ, ◌≡◌, refl, ◌&&◌, String, Bool, true, false, List, [], ◌∷◌,
  ◌++◌, str_eq, arith, if◌then◌else◌,
}
use deskfleet_ticketwarden.Service.Concurrent.{
  decision_of, account, is_resolved, final_of, new_collector, detect_prompt_leak, redact_reply,
  initial_state, answer_writes, guard_writes, ResolveRequest, Invoke, refused_state,
  detect_injection, redact_pii, count_token_source, resolve_case_writes, refuse_writes, ok, raised,
  withhold_writes, finish_writes, ticket_id, Decision, status_writes, event_writes, persist_writes,
  Result, SecurityEventType, CaseState, ToolStatus, UsageCollector, call_writes, Moment, ToolRecord,
  calls_writes, Environment, count_event, put_event, count_call, put_call, Write,
}
use deskfleet_ticketwarden.Service.Concurrent.Totals.{total}
use deskfleet_ticketwarden.Service.Concurrent.Interleaving.{Runs, writes_of, Job}

-- What a write adds to a counter, and to the rows that the counter stands for.
abbrev pub counts_event : String → Write → ℕ
counts_event key (count_event event) = if str_eq (event_value event) key then 1 else 0
counts_event key _ = 0

abbrev pub puts_event : String → Write → ℕ
puts_event key (put_event now id event detail) = if str_eq (event_value event) key then 1 else 0
puts_event key _ = 0

abbrev pub counts_call : String → String → Write → ℕ
counts_call tool status (count_call name s) =
    if str_eq name tool && str_eq (status_value s) status then 1 else 0
counts_call tool status _ = 0

abbrev pub puts_call : String → String → Write → ℕ
puts_call tool status (put_call now id call) =
    if str_eq call.tool_name tool && str_eq (status_value call.status) status then 1 else 0
puts_call tool status _ = 0

-- Writes that count what they store.
pub record IsBalanced (writes : List Write) : Type 0 where
  pub events : (key : String) → total (counts_event key) writes ≡ total (puts_event key) writes
  pub calls :
      (tool status : String)
      → total (counts_call tool status) writes ≡ total (puts_call tool status) writes

IsBalanced-append : (xs ys : List Write) → IsBalanced xs → IsBalanced ys → IsBalanced (xs ++ ys)
IsBalanced-append xs ys b c = record {
  events = λ key. omega (
    arith,
    total-append (counts_event key) xs ys,
    total-append (puts_event key) xs ys,
    b.events key,
    c.events key,
  );
  calls = λ tool status. omega (
    arith,
    total-append (counts_call tool status) xs ys,
    total-append (puts_call tool status) xs ys,
    b.calls tool status,
    c.calls tool status,
  );
}

nothing-IsBalanced : IsBalanced []
unfolding total
nothing-IsBalanced = record { events = λ key. refl; calls = λ tool status. refl }

module _ (now : ℕ) (id : String) where
  event_writes-IsBalanced :
      (event : SecurityEventType) (detail : Option String)
      → IsBalanced (event_writes now id event detail)
  unfolding total
  event_writes-IsBalanced event detail = record {
    events = λ key. omega arith;
    calls = λ tool status. omega arith;
  }

  status_writes-IsBalanced :
      (status : ToolStatus) (name : String) → IsBalanced (status_writes now id status name)
  unfolding total
  status_writes-IsBalanced ToolStatus.blocked name = event_writes-IsBalanced _ _
  status_writes-IsBalanced ToolStatus.sanitized name = event_writes-IsBalanced _ _
  status_writes-IsBalanced ToolStatus.ok name = record {
    events = λ key. refl;
    calls = λ tool status. refl;
  }
  status_writes-IsBalanced ToolStatus.error name = record {
    events = λ key. refl;
    calls = λ tool status. refl;
  }

  call_writes-IsBalanced : (call : ToolRecord) → IsBalanced (call_writes now id call)
  unfolding total
  call_writes-IsBalanced call =
      let rest = status_writes-IsBalanced call.status call.tool_name in
      record {
        events = λ key. omega (arith, rest.events key);
        calls = λ tool status. omega (arith, rest.calls tool status);
      }

  calls_writes-IsBalanced : (calls : List ToolRecord) → IsBalanced (calls_writes now id calls)
  unfolding calls_writes
  calls_writes-IsBalanced [] = nothing-IsBalanced
  calls_writes-IsBalanced (call ∷ calls) =
      IsBalanced-append (call_writes now id call) _ (call_writes-IsBalanced call)
        (calls_writes-IsBalanced calls)

module _ (env : Environment) (at : Moment) where
  persist_writes-IsBalanced :
      (state : CaseState) (latency cost : ℕ) → IsBalanced (persist_writes env at state latency cost)
  unfolding total
  persist_writes-IsBalanced state latency cost =
      let rest = calls_writes-IsBalanced at.now (ticket_id env at) state.tool_calls in
      record {
        events = λ key. omega (arith, rest.events key);
        calls = λ tool status. omega (arith, rest.calls tool status);
      }

  withhold_writes-IsBalanced :
      (b : Bool) (pattern : Option String) (f : CaseState) (d : Decision)
      → IsBalanced (withhold_writes env at b pattern f d).1
  withhold_writes-IsBalanced true pattern f d = event_writes-IsBalanced _ _ _ _
  withhold_writes-IsBalanced false pattern f d = nothing-IsBalanced

  finish_writes-IsBalanced :
      (k : UsageCollector) (f : CaseState) (counts : Result (ℕ × ℕ × String))
      → IsBalanced (finish_writes env at k f counts).1
  unfolding total
  finish_writes-IsBalanced k f (raised e) = nothing-IsBalanced
  finish_writes-IsBalanced k f (ok (prompt, completion, source)) =
      IsBalanced-append (count_token_source source ∷ []) _
        (record { events = λ key. refl; calls = λ tool status. refl })
        (IsBalanced-append _ _ (persist_writes-IsBalanced f _ _)
          (record { events = λ key. refl; calls = λ tool status. refl }))

  guard_writes-IsBalanced : (final : CaseState) → IsBalanced (guard_writes env at final).1
  guard_writes-IsBalanced final =
      let reply = redact_reply env at final.draft in
      let (is_leak, pattern) = detect_prompt_leak env.platform.unicode reply in
      withhold_writes-IsBalanced (is_leak && is_resolved (decision_of env at final)) pattern
        (record final { draft = reply }) (decision_of env at final)

  answer_writes-IsBalanced :
      (invoke : Invoke) (ticket : String) (order_id : Option String)
      → IsBalanced (answer_writes env at invoke ticket order_id).1
  answer_writes-IsBalanced invoke ticket order_id =
      let initial = initial_state (ticket_id env at) ticket order_id in
      let (r, k) = invoke initial new_collector in
      let (g, events) = guard_writes env at (final_of initial r) in
      IsBalanced-append events _ (guard_writes-IsBalanced (final_of initial r))
        (finish_writes-IsBalanced k g (account env at k ticket g.draft))

  refuse_writes-IsBalanced :
      (ticket : String) (reason : Option String) → IsBalanced (refuse_writes env at ticket reason)
  unfolding total
  refuse_writes-IsBalanced ticket reason =
      IsBalanced-append _ _ (persist_writes-IsBalanced (refused_state env at ticket reason) _ _) (
        IsBalanced-append _ _
          (event_writes-IsBalanced at.now (ticket_id env at) SecurityEventType.injection_refused
            reason)
          (record { events = λ key. refl; calls = λ tool status. refl }))

resolve_case_writes-IsBalanced :
    (env : Environment) (at : Moment) (invoke : Invoke) (request : ResolveRequest)
    → IsBalanced (resolve_case_writes env at invoke request).1
unfolding resolve_case_writes
resolve_case_writes-IsBalanced env at invoke request =
    let ticket = redact_pii env.platform.unicode (some request.ticket) in
    let (is_inj, reason) = detect_injection env.platform.unicode ticket in
    elim (Bool-cases is_inj) [
      | inl refused ↦ rw refused (refuse_writes-IsBalanced env at ticket reason)
      | inr passed ↦ rw passed (answer_writes-IsBalanced env at invoke ticket request.order_id)
    ]

pub Runs-IsBalanced :
    (env : Environment) (jobs : List Job) {writes : List Write}
    → Runs env jobs writes
    → IsBalanced writes
Runs-IsBalanced env jobs way = record {
  events = λ key. omega (
    arith,
    total-Merges (counts_event key) way,
    total-Merges (puts_event key) way,
    grand_total-same (counts_event key) (puts_event key) (writes_of env)
        (λ job. (resolve_case_writes-IsBalanced env job.at job.invoke job.request).events key) jobs,
  );
  calls = λ tool status. omega (
    arith,
    total-Merges (counts_call tool status) way,
    total-Merges (puts_call tool status) way,
    grand_total-same (counts_call tool status) (puts_call tool status) (writes_of env)
        (λ job.
          (resolve_case_writes-IsBalanced env job.at job.invoke job.request).calls tool status)
        jobs,
  );
}
