-- ===== src/Service/Resolve.antt =====
-- `resolve_case`. Time, the random part of the ticket's id and the trace's address are given; the
-- graph is given as what its `invoke` does with a state and the request's usage collector.
use deskfleet_ticketwarden.Base.{
  ℕ, ◌+◌, ◌*◌, ◌-◌, ◌/◌, ◌%◌, Bool, true, false, ◌&&◌, String, Option, none, some, List, [], ◌<>◌,
  or_else, text_or_empty, truthy, ltb, ◌==◌, if◌then◌else◌,
}
use deskfleet_ticketwarden.Action.{Result, ok, raised, message}
use deskfleet_ticketwarden.Settings.{Settings}
use deskfleet_ticketwarden.Platform.{Platform}
use deskfleet_ticketwarden.Vocabulary.{Decision, Category, SecurityEventType, is_resolved}
use deskfleet_ticketwarden.Registry.{ToolRecord}
use deskfleet_ticketwarden.Pii.{redact_pii}
use deskfleet_ticketwarden.Injection.{detect_injection}
use deskfleet_ticketwarden.Injection.Leak.{detect_prompt_leak}
use deskfleet_ticketwarden.Metrics.{
  record_decision, record_latency, record_tokens, record_cost, record_llm_calls,
  record_token_source,
}
use deskfleet_ticketwarden.Usage.{UsageCollector, new_collector, has_usage}
use deskfleet_ticketwarden.Costing.{Tiktoken, count_tokens, estimate_cost}
use deskfleet_ticketwarden.Graph.State.{CaseState}
use deskfleet_ticketwarden.Service.Effects.{World, log_security_event, persist}

pub record ResolveRequest : Type 0 where
  pub ticket : String
  pub order_id : Option String

pub record ResolveResponse : Type 0 where
  pub ticket_id : String
  pub decision : Decision
  pub reply : Option String
  pub category : Option Category
  pub escalation_reason : Option String
  pub iterations : ℕ
  pub tool_calls : List ToolRecord
  pub langsmith_trace_url : Option String
  -- in nanoseconds
  pub latency : ℕ
  -- in 10⁻⁸ USD
  pub cost_usd : ℕ

-- What does not change from request to request.
pub record Environment : Type 0 where
  pub platform : Platform
  pub settings : Settings
  pub tiktoken : Option Tiktoken
  -- `str.lower`
  pub lower : String → String

-- What one request finds: `uuid4().hex[:12]`, two readings of the clock in nanoseconds, SQLite's
-- time, and the trace's address if there is one.
pub record Moment : Type 0 where
  pub hex : String
  pub started : ℕ
  pub finished : ℕ
  pub now : ℕ
  pub trace_url : Option String

-- `graph.invoke(initial, config)`, which reports every model call to the collector.
abbrev pub Invoke : Type 0
Invoke = CaseState → UsageCollector → Result CaseState × UsageCollector

-- `round(latency_ms, 2)`: to the nearest 10⁴ nanoseconds, a tie to the even one.
unfoldable pub round_latency : ℕ → ℕ
round_latency ns =
    let q = ns / 10000 in
    let r = ns % 10000 in 10000 * (if ltb r 5000 then q else if r == 5000 then q + q % 2 else q + 1)

abbrev pub new_ticket_id : String → String
new_ticket_id hex = "tkt_" <> hex

abbrev pub initial_state : String → String → Option String → CaseState
initial_state ticket_id ticket order_id = record {
  ticket_id = ticket_id;
  ticket = ticket;
  order_id = order_id;
  category = none;
  facts = [];
  draft = none;
  review_feedback = none;
  decision = none;
  escalation_reason = none;
  iterations = 0;
  tool_calls = [];
}

-- The `try` around the graph: a raise becomes an escalation of the initial state.
abbrev pub final_of : CaseState → Result CaseState → CaseState
final_of initial (ok final) = final
final_of initial (raised e) = record initial {
  decision = some Decision.escalate;
  escalation_reason = some ("Graph execution error: " <> message e);
}

abbrev pub refusal_reason : Option String → String
refusal_reason reason =
    "Refused: prompt-injection signal detected (" <> (or_else reason "None" <> ")")

abbrev pub leak_reason : Option String → String
leak_reason pattern = "Outbound guardrail matched a leak signal: " <> or_else pattern "None"

module _ (env : Environment) (at : Moment) where
  abbrev pub elapsed : ℕ
  elapsed = at.finished - at.started

  abbrev pub ticket_id : String
  ticket_id = new_ticket_id at.hex

  abbrev pub refused_state : String → Option String → CaseState
  refused_state redacted reason = record (initial_state ticket_id redacted none) {
    decision = some Decision.refuse;
    escalation_reason = some (refusal_reason reason);
  }

  abbrev pub refusal_response : Option String → ResolveResponse
  refusal_response reason = record {
    ticket_id = ticket_id;
    decision = Decision.refuse;
    reply = none;
    category = none;
    escalation_reason = some (refusal_reason reason);
    iterations = 0;
    tool_calls = [];
    langsmith_trace_url = none;
    latency = round_latency elapsed;
    cost_usd = 0;
  }

  -- The branch that returns before any model is called.
  unfoldable pub refuse : String → Option String → World → Result ResolveResponse × World
  refuse redacted reason w =
      let state = refused_state redacted reason in
      let w₁ = persist env.platform at.now ticket_id state elapsed 0 w in
      let w₂ =
        log_security_event env.platform at.now ticket_id SecurityEventType.injection_refused reason
          w₁ in
      let m = record_latency elapsed (record_decision Decision.refuse w₂.metrics) in
      (ok (refusal_response reason), record w₂ { metrics = m })

  -- The reply as it may leave: redacted once more, or missing.
  unfoldable pub redact_reply : Option String → Option String
  redact_reply draft = elim (truthy draft) [
    | none ↦ none
    | some d ↦ some (redact_pii env.platform.unicode (some d))
  ]

  abbrev pub decision_of : CaseState → Decision
  decision_of final = or_else final.decision Decision.escalate

  -- The outbound guardrail on a redacted draft and a decision: the state that is kept, and the
  -- world with the event if a resolved case leaks.
  abbrev pub withhold : Bool → Option String → CaseState → Decision → World → CaseState × World
  withhold true pattern final decision w = (
    record final {
      decision = some Decision.escalate;
      escalation_reason = some (leak_reason pattern);
      draft = none;
    },
    log_security_event env.platform at.now ticket_id SecurityEventType.outbound_leak_blocked pattern
        w,
  )
  withhold false pattern final decision w = (record final { decision = some decision }, w)

  unfoldable pub guard_outbound : CaseState → World → CaseState × World
  guard_outbound final w =
      let reply = redact_reply final.draft in
      let decision = decision_of final in
      let (is_leak, pattern) = detect_prompt_leak env.platform.unicode reply in
      withhold (is_leak && is_resolved decision) pattern (record final { draft = reply }) decision w

  -- Token counts and where they come from.
  unfoldable pub account : UsageCollector → String → Option String → Result (ℕ × ℕ × String)
  account k redacted reply =
      if has_usage k
      then ok (k.prompt_tokens, k.completion_tokens, "provider")
      else elim (count_tokens env.platform.unicode env.tiktoken redacted env.settings.llm_model) [
        | raised e ↦ raised e
        | ok p ↦
            elim (count_tokens env.platform.unicode env.tiktoken (text_or_empty reply)
              env.settings.llm_model) [ raised e ↦ raised e | ok c ↦ ok (p, c, "estimated") ]
      ]

  abbrev pub response_of : CaseState → ℕ → ResolveResponse
  response_of final cost = record {
    ticket_id = ticket_id;
    decision = decision_of final;
    reply = final.draft;
    category = final.category;
    escalation_reason = final.escalation_reason;
    iterations = final.iterations;
    tool_calls = final.tool_calls;
    langsmith_trace_url = at.trace_url;
    latency = round_latency elapsed;
    cost_usd = cost;
  }

  -- Persistence and metrics once the tokens are counted.
  unfoldable pub conclude :
      UsageCollector → CaseState → ℕ × ℕ × String → World → Result ResolveResponse × World
  conclude k final (prompt, completion, source) w =
      let cost =
        estimate_cost env.lower prompt completion env.settings.llm_model
          env.settings.llm_provider in
      let w₁ = record w { metrics = record_token_source source w.metrics } in
      let w₂ = persist env.platform at.now ticket_id final (round_latency elapsed) cost w₁ in
      let m = record_latency elapsed (record_decision (decision_of final) w₂.metrics) in
      let m' =
        record_llm_calls k.llm_calls (record_cost cost (record_tokens prompt completion m)) in
      (ok (response_of final cost), record w₂ { metrics = m' })

  -- A tokenizer that refuses a text ends the request before anything is persisted.
  abbrev pub finish :
      UsageCollector → CaseState → Result (ℕ × ℕ × String) → World → Result ResolveResponse × World
  finish k final (raised e) w = (raised e, w)
  finish k final (ok counts) w = conclude k final counts w

  -- Everything behind the injection check.
  unfoldable pub answer : Invoke → String → Option String → World → Result ResolveResponse × World
  answer invoke redacted order_id w =
      let initial = initial_state ticket_id redacted order_id in
      let (r, k) = invoke initial new_collector in
      let (final, w₁) = guard_outbound (final_of initial r) w in
      finish k final (account k redacted final.draft) w₁

  unfoldable pub resolve_case : Invoke → ResolveRequest → World → Result ResolveResponse × World
  resolve_case invoke request w =
      let redacted = redact_pii env.platform.unicode (some request.ticket) in
      let (is_inj, reason) = detect_injection env.platform.unicode redacted in
      if is_inj then refuse redacted reason w else answer invoke redacted request.order_id w
