-- ===== src/Pii.antt =====
-- Redaction of personal data (apps/api/src/guardrails/pii.py).
pub mod Laws
pub mod Placeholder
pub mod Reference
pub mod Restore
use deskfleet_ticketwarden.Base.{
  ℕ, suc, String, Bool, true, false, ◌||◌, List, [], ◌∷◌, Option, none, some, ◌==◌, ◌<>◌, is_empty,
  show, replace, if◌then◌else◌,
}
use deskfleet_ticketwarden.Unicode.{Database, is_ascii_digit, is_ascii_lower, is_ascii_upper}
use deskfleet_ticketwarden.Regex.{Regex, ◌▷◌, ◌∪◌, lit, words, plus, opt, Piece, keep, hit, pieces}
use deskfleet_ticketwarden.Regex.Regex.{
  star, boundary, space, digit, set, times, up_to, not_after_digit, not_before_digit,
}

abbrev pub mask : String
mask = "[REDACTED]"

-- `_BUSINESS_REF`, compiled with `re.I`
abbrev pub business_ref : Regex
business_ref =
    boundary
    ▷ words ("order" ∷ "invoice" ∷ "tracking" ∷ "ticket" ∷ "reference" ∷ "ref" ∷ "awb" ∷ [])
    ▷ boundary
    ▷ up_to 20 (
        (space ∪ set (λ c. c == b':' || c == b'#'))
        ∪ lit "id"
        ∪ lit "no" ▷ opt (lit ".")
        ∪ lit "number")
    ▷ times 3 digit
    ▷ star digit
    ▷ boundary

abbrev is_letter : ℕ → Bool
is_letter c = is_ascii_lower c || is_ascii_upper c

abbrev is_alphanumeric : ℕ → Bool
is_alphanumeric c = is_letter c || is_ascii_digit c

-- `[\s.-]?`
abbrev separator : Regex
separator = opt (space ∪ set (λ c. c == b'.' || c == b'-'))

abbrev email : Regex
email =
    plus (
      set (λ c. is_alphanumeric c || c == b'.' || c == b'_' || c == b'%' || c == b'+' || c == b'-'))
    ▷ lit "@"
    ▷ plus (set (λ c. is_alphanumeric c || c == b'.' || c == b'-'))
    ▷ lit "."
    ▷ times 2 (set is_letter)
    ▷ star (set is_letter)

abbrev ssn : Regex
ssn = boundary ▷ times 3 digit ▷ lit "-" ▷ times 2 digit ▷ lit "-" ▷ times 4 digit ▷ boundary

-- `(?:\d[ -]*?){13,16}`
abbrev card : Regex
card =
    let step : Regex = digit ▷ Regex.lazy_star (set (λ c. c == 32 || c == b'-')) in
    boundary ▷ times 13 step ▷ up_to 3 step ▷ boundary

abbrev phone : Regex
phone =
    not_after_digit
    ▷ opt (opt (lit "+") ▷ digit ▷ opt digit ▷ separator)
    ▷ (lit "(" ▷ times 3 digit ▷ lit ")" ∪ times 3 digit)
    ▷ separator
    ▷ times 3 digit
    ▷ separator
    ▷ times 4 digit
    ▷ not_before_digit

-- `\d{1,3}`
abbrev octet : Regex
octet = digit ▷ up_to 2 digit

abbrev ip_address : Regex
ip_address = boundary ▷ times 3 (octet ▷ lit ".") ▷ octet ▷ boundary

-- `_PII_PATTERNS`, compiled without flags
abbrev pub pii_patterns : List (String × Regex)
pii_patterns =
    ("email", email)
    ∷ ("ssn", ssn)
    ∷ ("card", card)
    ∷ ("phone", phone)
    ∷ ("ip_address", ip_address)
    ∷ []

abbrev nul : String
nul = "\0"

abbrev pub placeholder : ℕ → String
placeholder index = nul <> ("REF" <> (show index <> nul))

-- `_BUSINESS_REF.sub(_stash, text)`: `_stash` numbers the references in the order they are met.
unfoldable pub stash : ℕ → List Piece → String × List String
unfolding show
stash index [] = ("", [])
stash index (keep c ∷ ps) = let (text, saved) = stash index ps in (String.◌∷◌ c text, saved)
stash index (hit ref ∷ ps) =
    let (text, saved) = stash (suc index) ps in (placeholder index <> text, ref ∷ saved)

-- `pattern.sub(_MASK, text)`
unfoldable pub cover : List Piece → String
cover [] = ""
cover (keep c ∷ ps) = String.◌∷◌ c (cover ps)
cover (hit span ∷ ps) = mask <> cover ps

abbrev pub hit_count : List Piece → ℕ
hit_count [] = 0
hit_count (keep c ∷ ps) = hit_count ps
hit_count (hit span ∷ ps) = suc (hit_count ps)

-- The loop of `_unshield_business_refs`, over the references that are left.
unfoldable pub unshield_from : ℕ → String → List String → String
unfolding replace show
unshield_from index text [] = text
unshield_from index text (original ∷ saved) =
    unshield_from (suc index) (replace (placeholder index) original text) saved

unfoldable pub unshield_business_refs : String → List String → String
unfolding unshield_from
unshield_business_refs text saved = unshield_from 0 text saved

module _ (u : Database) where
  unfoldable pub shield_business_refs : String → String × List String
  unfolding stash pieces
  shield_business_refs text = stash 0 (pieces u true business_ref text)

  -- One `pattern.sub` after the other.
  unfoldable pub mask_all : List (String × Regex) → String → String
  unfolding cover pieces
  mask_all [] text = text
  mask_all ((label, pattern) ∷ ps) text = mask_all ps (cover (pieces u false pattern text))

  unfoldable pub redact_text : String → String
  unfolding shield_business_refs mask_all unshield_business_refs
  redact_text text =
      let (shielded, saved) = shield_business_refs text in
      unshield_business_refs (mask_all pii_patterns shielded) saved

  unfoldable pub redact_pii : Option String → String
  unfolding redact_text
  redact_pii none = ""
  redact_pii (some text) = if is_empty text then "" else redact_text text

  -- The loop of `find_pii`: a category is entered only with at least one span.
  unfoldable pub count_spans : List (String × Regex) → String → List (String × ℕ)
  unfolding pieces
  count_spans [] shielded = []
  count_spans ((label, pattern) ∷ ps) shielded =
      let hits = hit_count (pieces u false pattern shielded) in
      let rest = count_spans ps shielded in if hits == 0 then rest else (label, hits) ∷ rest

  unfoldable pub find_pii : Option String → List (String × ℕ)
  unfolding shield_business_refs count_spans
  find_pii none = []
  find_pii (some text) =
      if is_empty text then [] else count_spans pii_patterns (shield_business_refs text).0
