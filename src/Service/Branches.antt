-- ===== src/Service/Branches.antt =====
-- The branches of `resolve_case` (service.py) behind the injection check: what may be resolved, what a raise in
-- the graph gives, which leaks are withheld, and when a response is given at all.
use deskfleet_ticketwarden.Base.{
  ℕ, true, false, ◌≡◌, refl, sym, ◌∙◌, String, Option, none, some, ◌<>◌, Bool-cases, inl, inr,
  text_or_empty, ◌⊎◌,
}
use deskfleet_ticketwarden.Action.{Result, ok, raised, message, Raised}
use deskfleet_ticketwarden.Vocabulary.{Decision}
use deskfleet_ticketwarden.Injection.{detect_injection, is_injection}
use deskfleet_ticketwarden.Injection.Leak.{detect_prompt_leak}
use deskfleet_ticketwarden.Injection.Score.{is_injection-first}
use deskfleet_ticketwarden.Usage.{UsageCollector, new_collector, has_usage}
use deskfleet_ticketwarden.Costing.{count_tokens}
use deskfleet_ticketwarden.Graph.State.{CaseState}
use deskfleet_ticketwarden.Service.Effects.{World}
use deskfleet_ticketwarden.Service.Resolve.{
  refusal_response, ResolveRequest, ResolveResponse, Environment, Moment, Invoke, ticket_id,
  resolve_case, account, answer, finish, conclude, guard_outbound, initial_state, response_of,
  redact_reply, refuse,
}
use deskfleet_ticketwarden.Service.Outcome.{Responds, weaken, redacted, leaks, answer_lem}
use deskfleet_ticketwarden.Service.Cases.{refuse-IsRecorded}

refuse_not_resolved : (d : Decision) → d ≡ Decision.refuse → d ≡ Decision.resolved → ⊥
refuse_not_resolved d r h = cc

-- A property of every response holds of the one that is given.
pub Responds-elim :
    (env : Environment) (at : Moment) (Q : ResolveResponse → World → Type 0)
    (r : Result ResolveResponse × World) {resp : ResolveResponse} {w' : World}
    → Responds env at Q r
    → r ≡ (ok resp, w')
    → Q resp w'
Responds-elim env at Q r y e = rw e at y

resolve_case-Sealed :
    (env : Environment) (at : Moment) (invoke : Invoke) (request : ResolveRequest) (w : World)
    → Responds env at
        (λ resp w'.
          resp.decision ≡ Decision.resolved
          → (is_injection env.platform.unicode (redacted env at request) ≡ false)
            × (leaks env at resp.reply ≡ false))
        (resolve_case env at invoke request w)
unfolding resolve_case
resolve_case-Sealed env at invoke request w =
    let ticket = redacted env at request in
    let (is_inj, reason) = detect_injection env.platform.unicode ticket in
    elim (Bool-cases is_inj) [
      | inl refused ↦ rw refused (
          weaken env at _ _ (refuse env at ticket reason w)
            (λ resp w' (_, decision, _) h. absurd (refuse_not_resolved resp.decision decision h))
            (refuse-IsRecorded env at ticket reason w))
      | inr passed ↦
          let clean = is_injection-first env.platform.unicode ticket ∙ passed in
          rw passed (
            weaken env at _ _ (answer env at invoke ticket request.order_id w)
              (λ resp w' (_, sealed, _) h. (clean, sealed h))
              (answer_lem env at invoke ticket request.order_id w))
    ]

-- A case is answered as resolved only if its text passed the injection scan and its reply carries
-- no leak signal.
pub resolve_case_sealed :
    (env : Environment) (at : Moment) (invoke : Invoke) (request : ResolveRequest) (w : World)
    {resp : ResolveResponse} {w' : World}
    → resolve_case env at invoke request w ≡ (ok resp, w')
    → resp.decision ≡ Decision.resolved
    → (is_injection env.platform.unicode (redacted env at request) ≡ false)
      × (leaks env at resp.reply ≡ false)
resolve_case_sealed env at invoke request w given resolved =
    Responds-elim env at _ (resolve_case env at invoke request w)
      (resolve_case-Sealed env at invoke request w) given resolved

module _ (env : Environment) (at : Moment) where
  pub finish_response :
      (k : UsageCollector) (f : CaseState) (counts : Result (ℕ × ℕ × String)) (w : World)
      → Responds env at
          (λ resp w'. (cost : ℕ) × (resp ≡ response_of env at f cost))
          (finish env at k f counts w)
  unfolding conclude
  finish_response k f (raised e) w = tt
  finish_response k f (ok (p, c, source)) w = (_, refl)

-- On a text that is not an injection, a raise in the graph never shows in a response: the case is
-- escalated with the exception's message as its reason and with no reply.
pub resolve_case_graph_error :
    (env : Environment) (at : Moment) (invoke : Invoke) (request : ResolveRequest) (w : World)
    {e : Raised} {k : UsageCollector}
    → is_injection env.platform.unicode (redacted env at request) ≡ false
    → invoke
        (initial_state (ticket_id env at) (redacted env at request) request.order_id)
        new_collector
      ≡ (raised e, k)
    → Responds env at
        (λ resp w'.
          (resp.decision ≡ Decision.escalate)
          × (resp.reply ≡ none)
          × (resp.escalation_reason ≡ some ("Graph execution error: " <> message e)))
        (resolve_case env at invoke request w)
unfolding resolve_case answer guard_outbound redact_reply detect_prompt_leak
resolve_case_graph_error env at invoke request w {e} {k} clean failed =
    let passed : (detect_injection env.platform.unicode (redacted env at request)).0 ≡ false =
      sym (is_injection-first env.platform.unicode (redacted env at request)) ∙ clean in
    rw (passed, failed)
      (weaken env at _ _ (finish env at k _ _ w)
        (λ resp w' (cost, same). (rw same, rw same, rw same)) (finish_response env at k _ _ w))

module _ (env : Environment) (at : Moment) where
  -- The tokenizer takes every text.
  abbrev pub CountsAll : Type 0
  CountsAll =
      (text : String)
      → (n : ℕ) × (count_tokens env.platform.unicode env.tiktoken text env.settings.llm_model
          ≡ ok n)

  account-ok :
      (k : UsageCollector) (ticket : String) (reply : Option String)
      → (has_usage k ≡ true) ⊎ CountsAll
      → (counts : ℕ × ℕ × String) × (account env at k ticket reply ≡ ok counts)
  unfolding account
  account-ok k ticket reply (inl used) =
      ((k.prompt_tokens, k.completion_tokens, "provider"), rw used)
  account-ok k ticket reply (inr all) =
      let (p, ep) = all ticket in
      let (c, ec) = all (text_or_empty reply) in
      elim (Bool-cases (has_usage k)) [
        | inl used ↦ ((k.prompt_tokens, k.completion_tokens, "provider"), rw used)
        | inr unused ↦ ((p, c, "estimated"), rw (unused, ep, ec))
      ]

  conclude_ok :
      (k : UsageCollector) (f : CaseState) (counts : ℕ × ℕ × String) (w : World)
      → (resp : ResolveResponse) × (w' : World) × (conclude env at k f counts w ≡ (ok resp, w'))
  unfolding conclude
  conclude_ok k f (p, c, source) w = (_, _, refl)

  finish-ok :
      (k : UsageCollector) (f : CaseState) (counts : Result (ℕ × ℕ × String)) (w : World)
      → (c : ℕ × ℕ × String) × (counts ≡ ok c)
      → (resp : ResolveResponse) × (w' : World) × (finish env at k f counts w ≡ (ok resp, w'))
  finish-ok k f counts w (c, e) = let done = conclude_ok k f c w in (done.0, done.1, rw e done.2)

-- A response is given for every request, provided that the model reported usage or the tokenizer
-- takes every text: nothing that the graph does keeps the service from answering.
pub resolve_case_total :
    (env : Environment) (at : Moment) (invoke : Invoke) (request : ResolveRequest) (w : World)
    → (has_usage
          (invoke
            (initial_state (ticket_id env at) (redacted env at request) request.order_id)
            new_collector).1
        ≡ true)
      ⊎ CountsAll env at
    → (resp : ResolveResponse) × (w' : World) × (resolve_case env at invoke request w
        ≡ (ok resp, w'))
unfolding resolve_case answer refuse
resolve_case_total env at invoke request w counts =
    elim (Bool-cases (detect_injection env.platform.unicode (redacted env at request)).0) [
      | inl refused ↦
          let reason = (detect_injection env.platform.unicode (redacted env at request)).1 in
          (
            refusal_response env at reason,
            (refuse env at (redacted env at request) reason w).1,
            rw refused,
          )
      | inr passed ↦ rw passed (finish-ok env at _ _ _ _ (account-ok env at _ _ _ counts))
    ]
