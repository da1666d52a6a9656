-- ===== src/Usage.antt =====
-- Token counts as the model reports them (apps/api/src/observability/usage.py).
pub mod Laws
use deskfleet_ticketwarden.Base.{
  ℕ, ◌+◌, Bool, not, ◌&&◌, Option, none, some, List, [], ◌∷◌, ◌==◌, if◌then◌else◌,
}
use deskfleet_ticketwarden.Action.{Result, ok, raised, Raised}

-- A count in a report: missing (or `None`), a number, or something that `int` refuses.
pub data Reported : Type 0 where
  missing : Reported
  tokens : ℕ → Reported
  malformed : Raised → Reported

-- A report: the prompt's count and the completion's.
pub record Report : Type 0 where
  pub prompt : Reported
  pub completion : Reported

-- `LLMResult`: per generated message the `usage_metadata`, if it is a `dict`, and the older
-- `token_usage` or `usage` entry of `llm_output`, if there is one.
pub record LlmResponse : Type 0 where
  pub generations : List (List (Option Report))
  pub legacy : Option Report

-- `int(value or 0)`, added to a sum
abbrev pub plus_reported : ℕ → Reported → Result ℕ
plus_reported n missing = ok n
plus_reported n (tokens k) = ok (n + k)
plus_reported n (malformed e) = raised e

abbrev pub add_report : Report → ℕ × ℕ → Result (ℕ × ℕ)
add_report r (p, c) = elim (plus_reported p r.prompt) [
  | raised e ↦ raised e
  | ok p' ↦ elim (plus_reported c r.completion) [ raised e ↦ raised e | ok c' ↦ ok (p', c') ]
]

unfoldable pub sum_messages : List (Option Report) → ℕ × ℕ → Result (ℕ × ℕ)
sum_messages [] acc = ok acc
sum_messages (none ∷ gens) acc = sum_messages gens acc
sum_messages (some r ∷ gens) acc = elim (add_report r acc) [
  | raised e ↦ raised e
  | ok acc' ↦ sum_messages gens acc'
]

unfoldable pub sum_generations : List (List (Option Report)) → ℕ × ℕ → Result (ℕ × ℕ)
unfolding sum_messages
sum_generations [] acc = ok acc
sum_generations (gens ∷ more) acc = elim (sum_messages gens acc) [
  | raised e ↦ raised e
  | ok acc' ↦ sum_generations more acc'
]

abbrev is_zero : ℕ × ℕ → Bool
is_zero (p, c) = p == 0 && c == 0

abbrev with_legacy : Option Report → ℕ × ℕ → Result (ℕ × ℕ)
with_legacy none acc = ok acc
with_legacy (some r) acc = add_report r acc

-- `_extract`
unfoldable pub extract : LlmResponse → Result (ℕ × ℕ)
unfolding sum_generations
extract response = elim (sum_generations response.generations (0, 0)) [
  | raised e ↦ raised e
  | ok acc ↦ if is_zero acc then with_legacy response.legacy acc else ok acc
]

pub record UsageCollector : Type 0 where
  pub prompt_tokens : ℕ
  pub completion_tokens : ℕ
  pub llm_calls : ℕ

abbrev pub new_collector : UsageCollector
new_collector = record { prompt_tokens = 0; completion_tokens = 0; llm_calls = 0 }

-- A report that cannot be read counts as a call without tokens.
unfoldable pub on_llm_end : LlmResponse → UsageCollector → UsageCollector
unfolding extract
on_llm_end response k = elim (extract response) [
  | raised e ↦ record k { llm_calls = k.llm_calls + 1 }
  | ok (p, c) ↦ record {
    prompt_tokens = k.prompt_tokens + p;
    completion_tokens = k.completion_tokens + c;
    llm_calls = k.llm_calls + 1;
  }
]

unfoldable pub has_usage : UsageCollector → Bool
has_usage k = not (k.prompt_tokens == 0 && k.completion_tokens == 0)

unfoldable pub total_tokens : UsageCollector → ℕ
total_tokens k = k.prompt_tokens + k.completion_tokens
