-- ===== src/Usage/Laws.antt =====
-- The collector of observability/usage.py over a whole request.
use deskfleet_ticketwarden.Base.{ℕ, ◌+◌, ◌≡◌, refl, List, [], ◌∷◌, length, arith}
use deskfleet_ticketwarden.Base.{◌⊎◌, inl, inr}
use deskfleet_ticketwarden.Action.{Result, ok, raised, Raised}
use deskfleet_ticketwarden.Usage.{LlmResponse, UsageCollector, on_llm_end, extract}

-- The callbacks of the calls, in their order.
unfoldable pub collect : List LlmResponse → UsageCollector → UsageCollector
collect [] k = k
collect (r ∷ responses) k = collect responses (on_llm_end r k)

abbrev pub counts_of : Result (ℕ × ℕ) → ℕ × ℕ
counts_of (ok counts) = counts
counts_of (raised e) = (0, 0)

-- What one response adds: nothing, if its report cannot be read.
abbrev pub reported : LlmResponse → ℕ × ℕ
reported r = counts_of (extract r)

abbrev pub prompt_sum : List LlmResponse → ℕ
prompt_sum [] = 0
prompt_sum (r ∷ responses) = (reported r).0 + prompt_sum responses

abbrev pub completion_sum : List LlmResponse → ℕ
completion_sum [] = 0
completion_sum (r ∷ responses) = (reported r).1 + completion_sum responses

Result-cases {ℓ} :
    {A : Type ℓ} (r : Result A) → ((a : A) × (r ≡ ok a)) ⊎ ((e : Raised) × (r ≡ raised e))
Result-cases (ok a) = inl (a, refl)
Result-cases (raised e) = inr (e, refl)

on_llm_end_lem :
    (r : LlmResponse) (k : UsageCollector)
    → ((on_llm_end r k).llm_calls ≡ k.llm_calls + 1)
      × ((on_llm_end r k).prompt_tokens ≡ k.prompt_tokens + (reported r).0)
      × ((on_llm_end r k).completion_tokens ≡ k.completion_tokens + (reported r).1)
unfolding on_llm_end
on_llm_end_lem r k = elim (Result-cases (extract r)) [
  | inl (counts, read) ↦ rw (on_llm_end, read) (refl, refl, refl)
  | inr (e, unread) ↦ rw (on_llm_end, unread) (refl, omega arith, omega arith)
]

-- Over any sequence of calls the collector counts every call, and its sums are those of the reports
-- that can be read: a report that cannot be read is left out and loses none of the others.
pub collect_lem :
    (responses : List LlmResponse) (k : UsageCollector)
    → let k' = collect responses k in
      (k'.llm_calls ≡ k.llm_calls + length responses)
      × (k'.prompt_tokens ≡ k.prompt_tokens + prompt_sum responses)
      × (k'.completion_tokens ≡ k.completion_tokens + completion_sum responses)
unfolding collect
collect_lem [] k = (omega arith, omega arith, omega arith)
collect_lem (r ∷ responses) k =
    let (calls, prompt, completion) = on_llm_end_lem r k in
    let (calls', prompt', completion') = collect_lem responses (on_llm_end r k) in
    (
      omega (arith, calls, calls'),
      omega (arith, prompt, prompt'),
      omega (arith, completion, completion'),
    )
