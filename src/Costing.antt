-- ===== src/Costing.antt =====
-- Token counting and cost (apps/api/src/observability/costing.py). A rate is in 10⁻⁵ USD for 1000
-- tokens, so a cost is a whole number of 10⁻⁸ USD, the last place that `round(cost, 8)` keeps.
pub mod Laws
use deskfleet_ticketwarden.Base.{
  ℕ, suc, ◌+◌, ◌*◌, Bool, true, false, ◌&&◌, code, String, Option, none, some, List, [], ◌∷◌,
  str_eq, is_empty, ltb, or_else, if◌then◌else◌,
}
use deskfleet_ticketwarden.Unicode.{Database, is_space}
use deskfleet_ticketwarden.Action.{Result, ok, raised}

pub record Price : Type 0 where
  pub prompt : ℕ
  pub completion : ℕ

abbrev row : String → String → ℕ → ℕ → String × String × Price
row provider model prompt completion =
    (provider, model, record { prompt = prompt; completion = completion })

-- `_PRICE_TABLE`
abbrev pub price_table : List (String × String × Price)
price_table =
    row "openai" "gpt-4o-mini" 15 60
    ∷ row "openai" "gpt-4o" 250 1000
    ∷ row "openai" "gpt-4-turbo" 1000 3000
    ∷ row "openai" "gpt-3.5-turbo" 50 150
    ∷ row "openai" "*" 15 60
    ∷ row "groq" "llama-3.3-70b-versatile" 59 79
    ∷ row "groq" "llama-3.1-8b-instant" 5 8
    ∷ row "groq" "*" 59 79
    ∷ row "gemini" "gemini-2.0-flash" 10 40
    ∷ row "gemini" "gemini-1.5-pro" 125 500
    ∷ row "gemini" "*" 10 40
    ∷ row "anthropic" "claude-sonnet-4-6" 300 1500
    ∷ row "anthropic" "claude-haiku-4-5-20251001" 80 400
    ∷ row "anthropic" "*" 300 1500
    ∷ row "nvidia" "*" 0 0
    ∷ row "ollama" "*" 0 0
    ∷ []

abbrev pub default_price : Price
default_price = record { prompt = 15; completion = 60 }

unfoldable pub lookup_price : String → String → List (String × String × Price) → Option Price
lookup_price provider model [] = none
lookup_price provider model ((p, m, price) ∷ rows) =
    if str_eq p provider && str_eq m model then some price else lookup_price provider model rows

abbrev or_price : Option Price → Option Price → Option Price
or_price none o = o
or_price (some p) o = some p

-- `_price_for`; a price is a pair, and so never counts as missing. `lower` is `str.lower`.
unfoldable pub price_for : (String → String) → String → String → Price
unfolding lookup_price
price_for lower model provider =
    let name = lower (if is_empty provider then "openai" else provider) in
    or_else (or_price (lookup_price name model price_table) (lookup_price name "*" price_table))
      default_price

unfoldable pub estimate_cost : (String → String) → ℕ → ℕ → String → String → ℕ
unfolding price_for
estimate_cost lower prompt_tokens completion_tokens model provider =
    let price = price_for lower model provider in
    prompt_tokens * price.prompt + completion_tokens * price.completion

pub record Usage : Type 0 where
  pub prompt_tokens : ℕ
  pub completion_tokens : ℕ
  pub cost_usd : ℕ

-- `Usage.add`
unfoldable pub add : Usage → Usage → Usage
add a b = record {
  prompt_tokens = a.prompt_tokens + b.prompt_tokens;
  completion_tokens = a.completion_tokens + b.completion_tokens;
  cost_usd = a.cost_usd + b.cost_usd;
}

-- How many tokens an encoding makes of a text; it refuses some texts.
abbrev pub Encoding : Type 0
Encoding = String → Result ℕ

-- tiktoken, where it is installed: the encoding of a model that it knows, and `cl100k_base`.
pub record Tiktoken : Type 0 where
  pub encoding_for_model : String → Option Encoding
  pub cl100k_base : Option Encoding

unfoldable pub encoding_for : Option Tiktoken → String → Option Encoding
encoding_for none model = none
encoding_for (some t) model = elim (t.encoding_for_model model) [
  | some e ↦ some e
  | none ↦ t.cl100k_base
]

-- `len(text.split())`
unfoldable pub word_count : Database → Bool → String → ℕ
unfolding is_space
word_count u in_word String.[] = 0
word_count u in_word (String.◌∷◌ c s) =
    let here = is_space u (code c) in
    let more = word_count u (if here then false else true) s in
    if here then more else (if in_word then more else suc more)

abbrev pub at_least_one : ℕ → ℕ
at_least_one n = if ltb n 1 then 1 else n

unfoldable pub count_tokens : Database → Option Tiktoken → String → String → Result ℕ
unfolding encoding_for word_count
count_tokens u t text model = if is_empty text then ok 0 else elim (encoding_for t model) [
  | none ↦ ok (at_least_one (word_count u false text))
  | some encode ↦ encode text
]

unfoldable pub usage_for :
    Database
    → Option Tiktoken
    → (String → String)
    → String
    → String
    → String
    → String
    → Result Usage
unfolding count_tokens estimate_cost
usage_for u t lower prompt_text completion_text model provider =
    elim (count_tokens u t prompt_text model) [
      | raised e ↦ raised e
      | ok p ↦ elim (count_tokens u t completion_text model) [
        | raised e ↦ raised e
        | ok c ↦ ok (record {
          prompt_tokens = p;
          completion_tokens = c;
          cost_usd = estimate_cost lower p c model provider;
        })
      ]
    ]
