-- ===== src/Metrics.antt =====
-- The Prometheus metrics (apps/api/src/observability/metrics.py). A counter is its value at each
-- label; the histogram keeps what was observed.
use deskfleet_ticketwarden.Base.{
  ℕ, ◌+◌, ◌&&◌, String, List, [], ◌∷◌, ◌++◌, ◌==◌, str_eq, if◌then◌else◌,
}
use deskfleet_ticketwarden.Vocabulary.{
  Decision, decision_value, ToolStatus, status_value, SecurityEventType, event_value,
}

pub record Metrics : Type 0 where
  -- `CASES_TOTAL`, by decision
  pub cases : String → ℕ
  -- `CASE_LATENCY`, in nanoseconds
  pub latencies : List ℕ
  -- `TOKENS_TOTAL`, by direction
  pub tokens : String → ℕ
  -- `COST_USD_TOTAL`, in 10⁻⁸ USD
  pub cost : ℕ
  -- `TOOL_CALLS_TOTAL`, by tool and status
  pub tool_calls : String → String → ℕ
  -- `LLM_CALLS_TOTAL`
  pub llm_calls : ℕ
  -- `TOKEN_SOURCE_TOTAL`, by source
  pub token_sources : String → ℕ
  -- `SECURITY_EVENTS_TOTAL`, by type
  pub security_events : String → ℕ

-- `counter.labels(key).inc(n)`
abbrev pub inc : String → ℕ → (String → ℕ) → String → ℕ
inc key n counter k = if str_eq key k then counter k + n else counter k

unfoldable pub record_decision : Decision → Metrics → Metrics
record_decision d m = record m { cases = inc (decision_value d) 1 m.cases }

unfoldable pub record_latency : ℕ → Metrics → Metrics
record_latency elapsed m = record m { latencies = m.latencies ++ elapsed ∷ [] }

unfoldable pub record_tokens : ℕ → ℕ → Metrics → Metrics
record_tokens prompt completion m =
    let prompts = if prompt == 0 then m.tokens else inc "prompt" prompt m.tokens in
    record m { tokens = if completion == 0 then prompts else inc "completion" completion prompts }

unfoldable pub record_cost : ℕ → Metrics → Metrics
record_cost usd m = if usd == 0 then m else record m { cost = m.cost + usd }

unfoldable pub record_tool_call : String → ToolStatus → Metrics → Metrics
record_tool_call tool status m = record m {
  tool_calls = λ t s.
      if str_eq tool t && str_eq (status_value status) s
      then m.tool_calls t s + 1
      else m.tool_calls t s;
}

unfoldable pub record_llm_calls : ℕ → Metrics → Metrics
record_llm_calls count m = if count == 0 then m else record m { llm_calls = m.llm_calls + count }

unfoldable pub record_token_source : String → Metrics → Metrics
record_token_source source m = record m { token_sources = inc source 1 m.token_sources }

unfoldable pub record_security_event : SecurityEventType → Metrics → Metrics
record_security_event event m = record m {
  security_events = inc (event_value event) 1 m.security_events;
}

-- The registry when the process starts.
abbrev pub no_metrics : Metrics
no_metrics = record {
  cases = λ k. 0;
  latencies = [];
  tokens = λ k. 0;
  cost = 0;
  tool_calls = λ t s. 0;
  llm_calls = 0;
  token_sources = λ k. 0;
  security_events = λ k. 0;
}
