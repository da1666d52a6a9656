-- ===== src/Service/Outcome.antt =====
-- What a response and the world behind it are, on each branch of `resolve_case`
-- (service.py).
use mathlib.Core.List.{append-nil}
use deskfleet_ticketwarden.Base.{
  ℕ, Bool, false, ◌&&◌, ◌≡◌, refl, ap, sym, ◌∙◌, String, Option, some, List, [], ◌∷◌, ◌++◌, map,
  if◌then◌else◌, arith, Bool-cases, inl, inr,
}
use deskfleet_ticketwarden.Action.{Result, ok, raised}
use deskfleet_ticketwarden.Vocabulary.{Decision, SecurityEventType, is_resolved}
use deskfleet_ticketwarden.Pii.{redact_pii}
use deskfleet_ticketwarden.Injection.Leak.{detect_prompt_leak}
use deskfleet_ticketwarden.Storage.{TicketRow}
use deskfleet_ticketwarden.Metrics.{record_token_source}
use deskfleet_ticketwarden.Usage.{UsageCollector, new_collector}
use deskfleet_ticketwarden.Costing.{estimate_cost}
use deskfleet_ticketwarden.Graph.State.{CaseState}
use deskfleet_ticketwarden.Service.Effects.{World, row_of}
use deskfleet_ticketwarden.Service.Audit.{
  Entry, entries, call_entry, log_security_event-rest, call_entries, logged, stored, status_entries,
  persist_lem, log_security_event-entries,
}
use deskfleet_ticketwarden.Service.Resolve.{
  finish, ResolveRequest, ResolveResponse, Environment, Moment, Invoke, round_latency, elapsed,
  ticket_id, initial_state, final_of, redact_reply, decision_of, guard_outbound, account,
  response_of, conclude, answer,
}

-- The row and the response agree on everything that both hold of the outcome.
pub record Agrees (resp : ResolveResponse) (row : TicketRow) : Type 0 where
  pub decision : row.decision ≡ some resp.decision
  pub reply : row.reply ≡ resp.reply
  pub category : row.category ≡ resp.category
  pub escalation_reason : row.escalation_reason ≡ resp.escalation_reason
  pub iterations : row.iterations ≡ resp.iterations
  pub cost : row.cost ≡ resp.cost_usd

module _ (env : Environment) (at : Moment) where
  -- The ticket as the rest of the pipeline sees it.
  abbrev pub redacted : ResolveRequest → String
  redacted request = redact_pii env.platform.unicode (some request.ticket)

  abbrev pub leaks : Option String → Bool
  leaks reply = (detect_prompt_leak env.platform.unicode reply).0

  -- The entry of the outbound guardrail: one, if a resolved case has a draft that leaks.
  abbrev pub leak_entries : CaseState → List Entry
  leak_entries final =
      let (leaking, pattern) =
        detect_prompt_leak env.platform.unicode (redact_reply env at final.draft) in
      if leaking && is_resolved (decision_of env at final)
      then (ticket_id env at, SecurityEventType.outbound_leak_blocked, pattern) ∷ []
      else []

  -- A state that has passed the outbound guardrail.
  pub record IsGuarded (final : CaseState) (w : World) (f : CaseState) (w' : World) : Type 0 where
    pub decided : f.decision ≡ some (decision_of env at f)
    pub sealed : decision_of env at f ≡ Decision.resolved → leaks f.draft ≡ false
    pub calls : f.tool_calls ≡ final.tool_calls
    pub logged_leak : entries w' ≡ entries w ++ leak_entries final
    pub other_tables : call_entries w' ≡ call_entries w

  sealed_of :
      (b : Bool) (d : Decision) → (b && is_resolved d) ≡ false → d ≡ Decision.resolved → b ≡ false
  sealed_of b d clear h = ground arith

  guard_outbound-IsGuarded :
      (final : CaseState) (w : World)
      → let (f, w') = guard_outbound env at final w in IsGuarded final w f w'
  unfolding guard_outbound
  guard_outbound-IsGuarded final w =
      let (leaking, pattern) =
        detect_prompt_leak env.platform.unicode (redact_reply env at final.draft) in
      elim (Bool-cases (leaking && is_resolved (decision_of env at final))) [
        | inl caught ↦ rw caught (record {
          decided = refl;
          sealed = λ h. cc;
          calls = refl;
          logged_leak = rw caught (
              log_security_event-entries env.platform at.now (ticket_id env at)
                SecurityEventType.outbound_leak_blocked pattern w);
          other_tables =
              ap (map call_entry)
                (log_security_event-rest env.platform at.now (ticket_id env at)
                  SecurityEventType.outbound_leak_blocked pattern w).0;
        })
        | inr clear ↦ rw clear (record {
          decided = refl;
          sealed = sealed_of leaking (decision_of env at final) clear;
          calls = refl;
          logged_leak = rw clear (sym (append-nil _));
          other_tables = refl;
        })
      ]

  -- What a response that was persisted tells of the world before it, where `extra` is what was
  -- logged on the way.
  pub record IsRecorded (extra : List Entry) (w : World) (resp : ResolveResponse) (w' : World)
      : Type 0 where
    pub named : resp.ticket_id ≡ ticket_id env at
    pub row : TicketRow
    pub found : stored resp.ticket_id w' ≡ some row
    pub agrees : Agrees resp row
    pub calls :
        call_entries w' ≡ call_entries w ++ map (logged env.platform resp.ticket_id) resp.tool_calls
    pub events : entries w' ≡ (entries w ++ extra) ++ status_entries resp.ticket_id resp.tool_calls

  -- A property of every response that is given, with the world behind it.
  abbrev pub Responds : (ResolveResponse → World → Type 0) → Result ResolveResponse × World → Type 0
  Responds Q (ok resp, w') = Q resp w'
  Responds Q (raised e, w') = Unit

  conclude_lem :
      (k : UsageCollector) (f : CaseState) (counts : ℕ × ℕ × String) (w₀ w : World)
      (extra : List Entry)
      → f.decision ≡ some (decision_of env at f)
      → entries w ≡ entries w₀ ++ extra
      → call_entries w ≡ call_entries w₀
      → Responds
          (λ resp w'.
            IsRecorded extra w₀ resp w'
            × (resp.decision ≡ decision_of env at f)
            × (resp.reply ≡ f.draft)
            × (resp.tool_calls ≡ f.tool_calls))
          (conclude env at k f counts w)
  unfolding conclude
  conclude_lem k f (prompt, completion, source) w₀ w extra decided before same =
      let cost =
        estimate_cost env.lower prompt completion env.settings.llm_model
          env.settings.llm_provider in
      let w₁ : World = record w { metrics = record_token_source source w.metrics } in
      let id = ticket_id env at in
      let latency = round_latency (elapsed env at) in
      let (row, calls, events) = persist_lem env.platform at.now id f latency cost w₁ in
      let recorded : IsRecorded extra w₀ (response_of env at f cost)
          (conclude env at k f (prompt, completion, source) w).1 =
        record {
          named = refl;
          row = record (row_of env.platform at.now id f latency cost) { created_at = row.0 };
          found = row.1;
          agrees = record {
            decision = decided;
            reply = refl;
            category = refl;
            escalation_reason = refl;
            iterations = refl;
            cost = refl;
          };
          calls = rw same at calls;
          events = rw before at events;
        } in
      (recorded, refl, refl, refl)

  -- The final state of the graph for a ticket, whatever the graph did.
  abbrev pub final_state : Invoke → String → Option String → CaseState
  final_state invoke ticket order_id =
      let initial = initial_state (ticket_id env at) ticket order_id in
      final_of initial (invoke initial new_collector).0

  finish_lem :
      (k : UsageCollector) (f : CaseState) (counts : Result (ℕ × ℕ × String)) (w₀ w : World)
      (extra : List Entry)
      → f.decision ≡ some (decision_of env at f)
      → entries w ≡ entries w₀ ++ extra
      → call_entries w ≡ call_entries w₀
      → Responds
          (λ resp w'.
            IsRecorded extra w₀ resp w'
            × (resp.decision ≡ decision_of env at f)
            × (resp.reply ≡ f.draft)
            × (resp.tool_calls ≡ f.tool_calls))
          (finish env at k f counts w)
  finish_lem k f (raised e) w₀ w extra decided before same = tt
  finish_lem k f (ok counts) w₀ w extra decided before same =
      conclude_lem k f counts w₀ w extra decided before same

  pub weaken :
      (P Q : ResolveResponse → World → Type 0) (r : Result ResolveResponse × World)
      → ((resp : ResolveResponse) (w' : World) → P resp w' → Q resp w')
      → Responds P r
      → Responds Q r
  weaken P Q (ok resp, w') f p = f resp w' p
  weaken P Q (raised e, w') f p = tt

  -- What is promised of an answer, given the graph's final state.
  abbrev pub Answered : CaseState → World → ResolveResponse → World → Type 0
  Answered final w resp w' =
      IsRecorded (leak_entries final) w resp w'
      × (resp.decision ≡ Decision.resolved → leaks resp.reply ≡ false)
      × (resp.tool_calls ≡ final.tool_calls)

  pub answer_lem :
      (invoke : Invoke) (ticket : String) (order_id : Option String) (w : World)
      → Responds
          (Answered (final_state invoke ticket order_id) w)
          (answer env at invoke ticket order_id w)
  unfolding answer
  answer_lem invoke ticket order_id w =
      let (r, k) = invoke (initial_state (ticket_id env at) ticket order_id) new_collector in
      let final = final_state invoke ticket order_id in
      let (f, w₁) = guard_outbound env at final w in
      let g = guard_outbound-IsGuarded final w in
      weaken _ _ (finish env at k f (account env at k ticket f.draft) w₁)
        (λ resp w' (recorded, decision, reply, calls).
          (recorded, λ h. rw reply (g.sealed (sym decision ∙ h)), calls ∙ g.calls))
        (finish_lem k f (account env at k ticket f.draft) w w₁ (leak_entries final) g.decided
          g.logged_leak g.other_tables)
