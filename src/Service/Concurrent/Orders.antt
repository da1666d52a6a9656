-- ===== src/Service/Concurrent/Orders.antt =====
-- The counters of metrics.py do not depend on the order in which requests (service.py) come to write.
use mathlib.Core.List.{[]}
use deskfleet_ticketwarden.Vocabulary.{decision_value}
use deskfleet_ticketwarden.Metrics.{Metrics}
use deskfleet_ticketwarden.Base.{
  [], leb, ◌∷◌, length, Bool, count, ℕ, ◌+◌, ◌≡◌, String, List, str_eq, if◌then◌else◌,
}
use deskfleet_ticketwarden.Service.Concurrent.{
  observe_latency, count_tokens, count_decision, count_llm_calls, count_cost, count_token_source,
  Write,
}

abbrev adds_case : String → Write → ℕ
adds_case key (count_decision d) = if str_eq (decision_value d) key then 1 else 0
adds_case key _ = 0

abbrev adds_tokens : String → Write → ℕ
adds_tokens key (count_tokens prompt completion) =
    (if str_eq "prompt" key then prompt else 0)
    + (if str_eq "completion" key then completion else 0)
adds_tokens key _ = 0

abbrev adds_cost : Write → ℕ
adds_cost (count_cost usd) = usd
adds_cost _ = 0

abbrev adds_llm_calls : Write → ℕ
adds_llm_calls (count_llm_calls n) = n
adds_llm_calls _ = 0

abbrev adds_source : String → Write → ℕ
adds_source key (count_token_source s) = if str_eq s key then 1 else 0
adds_source key _ = 0

-- A bucket of the histogram counts the cases that took at most as long as its bound.
abbrev pub within : ℕ → ℕ → Bool
within bound ns = leb ns bound

abbrev pub sum : List ℕ → ℕ
sum [] = 0
sum (n ∷ ns) = n + sum ns

abbrev adds_to_bucket : ℕ → Write → ℕ
adds_to_bucket bound (observe_latency ns) = if within bound ns then 1 else 0
adds_to_bucket bound _ = 0

abbrev adds_latency : Write → ℕ
adds_latency (observe_latency ns) = ns
adds_latency _ = 0

abbrev adds_observation : Write → ℕ
adds_observation (observe_latency ns) = 1
adds_observation _ = 0

-- Two registries that prometheus_client exposes alike.
pub record SameCounters (m n : Metrics) : Type 0 where
  cases : (key : String) → m.cases key ≡ n.cases key
  tokens : (key : String) → m.tokens key ≡ n.tokens key
  cost : m.cost ≡ n.cost
  tool_calls : (tool status : String) → m.tool_calls tool status ≡ n.tool_calls tool status
  llm_calls : m.llm_calls ≡ n.llm_calls
  token_sources : (key : String) → m.token_sources key ≡ n.token_sources key
  latency_buckets :
      (bound : ℕ) → count (within bound) m.latencies ≡ count (within bound) n.latencies
  latency_count : length m.latencies ≡ length n.latencies
  latency_sum : sum m.latencies ≡ sum n.latencies
  security_events : (key : String) → m.security_events key ≡ n.security_events key
