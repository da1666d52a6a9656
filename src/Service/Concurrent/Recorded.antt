-- ===== src/Service/Concurrent/Recorded.antt =====
-- What is found of a case (storage/repo.py) whose request ran among others (service.py).
use deskfleet_ticketwarden.Service.Resolve.{resolve_case}
use deskfleet_ticketwarden.Base.{
  All-append, ◌≡◌, refl, ap, sym, ◌∙◌, Bool, true, false, String, some, List, [], ◌∷◌, ◌++◌, map,
  filter, All, str_eq, Bool-cases, inl, inr, ◌&&◌,
}
use mathlib.Core.Path.{subst}
use mathlib.Core.List.{append_assoc}
use text.Mathlib.TextPositions.{eq_refl}
use deskfleet_ticketwarden.Action.{ok}
use deskfleet_ticketwarden.Storage.{TicketRow, ToolCallRow, SecurityEventRow}
use deskfleet_ticketwarden.Service.Effects.{World}
use deskfleet_ticketwarden.Service.Audit.{
  entries, call_entries, Entry, entry, CallEntry, logged, status_entry, status_entries,
}
use deskfleet_ticketwarden.Service.Outcome.{final_state, Agrees, IsRecorded, leak_entries, redacted}
use deskfleet_ticketwarden.Service.Cases.{guardrail_entries, resolve_case-IsRecorded}
use deskfleet_ticketwarden.Service.Branches.{Responds-elim}
use deskfleet_ticketwarden.Service.Trail.{filter-skip, filter-logged, All-call_entry}
use deskfleet_ticketwarden.Service.Concurrent.{
  decision_of, is_resolved, redact_reply, detect_prompt_leak, CaseState, Write, detect_injection,
  ticket_id, ResolveRequest, Invoke, ResolveResponse, Moment, Environment, ToolRecord, ToolStatus,
  perform_all,
}
use deskfleet_ticketwarden.Service.Concurrent.Sequential.{resolve_case-writes}
use deskfleet_ticketwarden.Service.Concurrent.Interleaving.{Job, Runs, result_of, writes_of}
use deskfleet_ticketwarden.Service.Concurrent.Trails.{Trail, trail}
use deskfleet_ticketwarden.Service.Concurrent.Isolation.{IsElsewhere, trail-Runs}

-- What a response promises of its ticket's trail.
pub record IsTraced (env : Environment) (extra : List Entry) (resp : ResolveResponse)
    (found : Trail) : Type 0 where
  row : TicketRow
  kept : found.0 ≡ some row
  agrees : Agrees resp row
  calls : found.1 ≡ map (logged env.platform resp.ticket_id) resp.tool_calls
  events : found.2 ≡ extra ++ status_entries resp.ticket_id resp.tool_calls

module _ (id : String) where
  abbrev mine : Entry → Bool
  mine e = str_eq e.0 id

  filter-mine : (es : List Entry) → All (λ (e : Entry). mine e ≡ true) es → filter mine es ≡ es
  filter-mine [] h = refl
  filter-mine (e ∷ es) h = rw h.0 (ap (λ rest. e ∷ rest) (filter-mine es h.1))

  status_entry-mine :
      (status : ToolStatus) (name : String)
      → All (λ (e : Entry). mine e ≡ true) (status_entry id status name)
  status_entry-mine ToolStatus.blocked name = (eq_refl id, tt)
  status_entry-mine ToolStatus.sanitized name = (eq_refl id, tt)
  status_entry-mine ToolStatus.ok name = tt
  status_entry-mine ToolStatus.error name = tt

  status_entries-mine :
      (calls : List ToolRecord) → All (λ (e : Entry). mine e ≡ true) (status_entries id calls)
  status_entries-mine [] = tt
  status_entries-mine (call ∷ calls) =
      All-append (λ (e : Entry). mine e ≡ true) (status_entry id call.status call.tool_name) _
        (status_entry-mine call.status call.tool_name) (status_entries-mine calls)

  All-entry :
      (rows : List SecurityEventRow)
      → All (λ (r : SecurityEventRow). str_eq r.ticket_id id ≡ false) rows
      → All (λ (e : Entry). mine e ≡ false) (map entry rows)
  All-entry [] h = tt
  All-entry (r ∷ rows) h = (h.0, All-entry rows h.1)

module _ (env : Environment) (at : Moment) where
  leak_entries-mine :
      (final : CaseState)
      → All (λ (e : Entry). mine (ticket_id env at) e ≡ true) (leak_entries env at final)
  leak_entries-mine final =
      let (leaking, pattern) =
        detect_prompt_leak env.platform.unicode (redact_reply env at final.draft) in
      elim (Bool-cases (leaking && is_resolved (decision_of env at final))) [
        | inl caught ↦ rw caught (eq_refl (ticket_id env at), tt)
        | inr clear ↦ rw clear tt
      ]

  guardrail_entries-mine :
      (invoke : Invoke) (request : ResolveRequest)
      → All
          (λ (e : Entry). mine (ticket_id env at) e ≡ true)
          (guardrail_entries env at invoke request)
  guardrail_entries-mine invoke request =
      let ticket = redacted env at request in
      let (is_inj, reason) = detect_injection env.platform.unicode ticket in
      elim (Bool-cases is_inj) [
        | inl refused ↦ rw refused (eq_refl (ticket_id env at), tt)
        | inr passed ↦
            rw passed (leak_entries-mine (final_state env at invoke ticket request.order_id))
      ]

  -- The trail of a request that ran alone.
  trail-IsRecorded :
      (extra : List Entry) (w : World) (resp : ResolveResponse) (w' : World)
      → All (λ (e : Entry). mine (ticket_id env at) e ≡ true) extra
      → All (λ (r : ToolCallRow). str_eq r.ticket_id (ticket_id env at) ≡ false) w.db.tool_calls
      → All
          (λ (r : SecurityEventRow). str_eq r.ticket_id (ticket_id env at) ≡ false)
          w.db.security_events
      → IsRecorded env at extra w resp w'
      → IsTraced env extra resp (trail (ticket_id env at) w')
  unfolding trail
  trail-IsRecorded extra w resp w' own no_calls no_events recorded =
      let id = ticket_id env at in
      let calls = map (logged env.platform id) resp.tool_calls in
      let all_calls : call_entries w' ≡ call_entries w ++ calls =
        rw recorded.named at recorded.calls in
      let all_events : entries w' ≡ (entries w ++ extra) ++ status_entries id resp.tool_calls =
        rw recorded.named at recorded.events in
      record {
        row = recorded.row;
        kept = rw recorded.named at recorded.found;
        agrees = recorded.agrees;
        calls = rw recorded.named (
            ap (filter (λ (e : CallEntry). str_eq e.0 id)) all_calls
            ∙ filter-skip _ (call_entries w) calls (All-call_entry id w.db.tool_calls no_calls)
            ∙ filter-logged env.platform id resp.tool_calls);
        events = rw recorded.named (
            ap (filter (mine id)) (all_events ∙ append_assoc (entries w) extra _)
            ∙ filter-skip (mine id) (entries w) _ (All-entry id w.db.security_events no_events)
            ∙ filter-mine id _ (
                All-append (λ (e : Entry). mine id e ≡ true) extra _ own
                  (status_entries-mine id resp.tool_calls)));
      }

-- Where a request is answered and its ticket id is new to both logs, then however its writes are
-- interleaved with those of requests that were given other ids, what is found afterwards under the
-- id of the response is the response's own: a row with the same decision, reply, category, reason,
-- iterations and cost, the tool calls in order, and the security events of the guardrails followed
-- by one for each blocked or sanitized call.
pub Runs-IsTraced :
    (env : Environment) (before after : List Job) (job : Job) (writes : List Write) (w : World)
    {resp : ResolveResponse}
    → IsElsewhere env (ticket_id env job.at) before
    → IsElsewhere env (ticket_id env job.at) after
    → Runs env (before ++ job ∷ after) writes
    → All (λ (r : ToolCallRow). str_eq r.ticket_id (ticket_id env job.at) ≡ false) w.db.tool_calls
    → All
        (λ (r : SecurityEventRow). str_eq r.ticket_id (ticket_id env job.at) ≡ false)
        w.db.security_events
    → result_of env job ≡ ok resp
    → (resp.ticket_id ≡ ticket_id env job.at)
      × IsTraced env
          (guardrail_entries env job.at job.invoke job.request)
          resp
          (trail resp.ticket_id (perform_all env.platform writes w))
Runs-IsTraced env before after job writes w {resp} earlier later way no_calls no_events given =
    let id = ticket_id env job.at in
    let w' = perform_all env.platform (writes_of env job) w in
    let alone : resolve_case env job.at job.invoke job.request w ≡ (ok resp, w') =
      resolve_case-writes env job.at job.invoke job.request w ∙ ap (λ r. (r, w')) given in
    let extra = guardrail_entries env job.at job.invoke job.request in
    let recorded : IsRecorded env job.at extra w resp w' =
      Responds-elim env job.at _ (resolve_case env job.at job.invoke job.request w)
        (resolve_case-IsRecorded env job.at job.invoke job.request w) alone in
    let same : trail id w' ≡ trail id (perform_all env.platform writes w) =
      ap (λ r. trail id r.1) (sym alone)
      ∙ sym (trail-Runs env before after job writes w earlier later way) in
    (
      recorded.named,
      subst (λ i. IsTraced env extra resp (trail i (perform_all env.platform writes w)))
          (sym recorded.named)
          (subst (IsTraced env extra resp) same (
            trail-IsRecorded env job.at extra w resp w'
              (guardrail_entries-mine env job.at job.invoke job.request) no_calls no_events
              recorded)),
    )
