-- ===== src/Pii/Restore.antt =====
-- `_unshield_business_refs` puts back what `_shield_business_refs` took out (guardrails/pii.py).
use deskfleet_ticketwarden.Pii.Laws.{mask_all-count_spans}
use deskfleet_ticketwarden.Pii.Reference.{business_ref-IsEnd, IsEnd}
use mathlib.Core.Path.{subst}
use text.Mathlib.TextLemmas.{nil-append, append_assoc}
use deskfleet_ticketwarden.Base.{
  ◌-◌, [], chars, replace, ◌<◌, ℕ, zero, suc, Char, code, String, ◌<>◌, ◌≡◌, refl, ap, sym, ◌∙◌,
  true, false, Option, some, none, List, Each-left, Each-append, String-cases, inl, inr, arith,
  ◌==◌,
}
use deskfleet_ticketwarden.Unicode.{Database, is_digit, is_word}
use deskfleet_ticketwarden.Regex.{
  Position, Piece, keep, hit, piece_of, behind, cut, pieces, match_at,
}
use deskfleet_ticketwarden.Regex.Sound.{Splits}
use deskfleet_ticketwarden.Regex.Pieces.{
  rest_of, match_at-Splits, joined, joined-pieces, drop_chars, OnMatch, match_at-OnMatch,
}
use deskfleet_ticketwarden.Pii.{
  pii_patterns, count_spans, redact_text, redact_pii, unshield_business_refs, find_pii,
  shield_business_refs, business_ref, stash, placeholder, unshield_from,
}
use deskfleet_ticketwarden.Pii.Placeholder.{
  has_no_nul-IsPlain, has_no_nul, replace-cons, placeholder-cons, cons_lem, replace-nil, IsPlain,
  IsApart, is_nul, replace-plain, replace-own, replace-later,
}

-- What follows a reference does not go on as a placeholder does.
abbrev Follows : List Piece → Type 0
Follows List.[] = Unit
Follows (List.◌∷◌ (keep c) ps) = (code c == b'R') ≡ false
Follows (List.◌∷◌ (hit ref) ps) = Unit

-- Pieces of a text without NUL, cut at references.
abbrev IsClear : List Piece → Type 0
IsClear List.[] = Unit
IsClear (List.◌∷◌ (keep c) ps) = (is_nul c ≡ false) × IsClear ps
IsClear (List.◌∷◌ (hit ref) ps) = IsPlain ref × (Follows ps × IsClear ps)

stash-IsApart : (i : ℕ) (ps : List Piece) → Follows ps → IsApart (stash i ps).0
unfolding stash
stash-IsApart i List.[] h = tt
stash-IsApart i (List.◌∷◌ (keep c) ps) h = h
stash-IsApart i (List.◌∷◌ (hit ref) ps) h =
    subst IsApart (sym (placeholder-cons i (stash (suc i) ps).0)) refl

-- A replacement leaves the placeholders with later numbers alone.
replace-stash :
    (i j : ℕ) (new : String) (ps : List Piece)
    → j < i
    → IsClear ps
    → replace (placeholder j) new (stash i ps).0 ≡ (stash i ps).0
unfolding stash
replace-stash i j new List.[] lt clear = replace-nil j new
replace-stash i j new (List.◌∷◌ (keep c) ps) lt clear =
    replace-cons j new c (stash i ps).0 clear.0
    ∙ ap (String.◌∷◌ c) (replace-stash i j new ps lt clear.1)
replace-stash i j new (List.◌∷◌ (hit ref) ps) lt clear =
    replace-later i j new (stash (suc i) ps).0 lt (stash-IsApart (suc i) ps clear.1.0)
    ∙ ap (λ t. placeholder i <> t) (replace-stash (suc i) j new ps (omega (arith, lt)) clear.1.1)

-- `done` is what the loop has put back already.
unshield_from-stash :
    (i : ℕ) (done : String) (ps : List Piece)
    → IsPlain done
    → IsClear ps
    → unshield_from i (done <> (stash i ps).0) (stash i ps).1 ≡ done <> joined ps
unfolding unshield_from stash
unshield_from-stash i done List.[] plain clear = refl
unshield_from-stash i done (List.◌∷◌ (keep c) ps) plain clear =
    let one : (t : String) → done <> String.◌∷◌ c t ≡ (done <> String.◌∷◌ c "") <> t =
      λ t. ap (λ k. done <> k) (sym (cons_lem c t)) ∙ sym (append_assoc done _ t) in
    ap (λ t. unshield_from i t (stash i ps).1) (one (stash i ps).0)
    ∙ unshield_from-stash i (done <> String.◌∷◌ c "") ps (Each-append _ done _ plain (clear.0, tt))
        clear.1
    ∙ sym (one (joined ps))
unshield_from-stash i done (List.◌∷◌ (hit ref) ps) plain clear =
    let t = (stash (suc i) ps).0 in
    let restored : replace (placeholder i) ref (done <> (placeholder i <> t)) ≡ (done <> ref) <> t =
      replace-plain i ref done (placeholder i <> t) plain
      ∙ ap (λ k. done <> k)
          (replace-own i ref t
            ∙ ap (λ k. ref <> k) (replace-stash (suc i) i ref ps (omega arith) clear.1.1))
      ∙ sym (append_assoc done ref t) in
    ap (λ k. unshield_from (suc i) k (stash (suc i) ps).1) restored
    ∙ unshield_from-stash (suc i) (done <> ref) ps (Each-append _ done ref plain clear.0) clear.1.1
    ∙ append_assoc done ref (joined ps)

module _ (u : Database) (digits : (c : ℕ) → is_digit u c ≡ true → is_word u c ≡ true) where
  step-Follows :
      (o : Option Position) (c : Char) (ps : List Piece)
      → (code c == b'R') ≡ false
      → Follows (List.◌∷◌ (piece_of o c) ps)
  step-Follows none c ps h = h
  step-Follows (some p) c ps h = elim (String-cases p.taken) [
    | inl empty ↦ rw empty h
    | inr (d, t, begun) ↦ rw begun tt
  ]

  cut-Follows :
      (skip : ℕ) (before : Option Char) (s : String)
      → IsApart (drop_chars skip s)
      → Follows (cut u true business_ref skip before s)
  unfolding cut
  cut-Follows skip before String.[] h = tt
  cut-Follows zero before (String.◌∷◌ c s) h =
      step-Follows (match_at u true business_ref before (String.◌∷◌ c s)) c _ h
  cut-Follows (suc k) before (String.◌∷◌ c s) h = cut-Follows k (some c) s h

  step-IsClear :
      (o : Option Position) (c : Char) (s : String)
      → IsPlain (String.◌∷◌ c s)
      → OnMatch (Splits u true (String.◌∷◌ c s)) o
      → OnMatch (λ p. IsApart p.rest) o
      → ((skip : ℕ) → IsClear (cut u true business_ref skip (some c) s))
      → IsClear (List.◌∷◌ (piece_of o c) (cut u true business_ref (behind o) (some c) s))
  step-IsClear none c s plain splits ends later = (plain.0, later 0)
  step-IsClear (some p) c s plain splits ends later = elim (String-cases p.taken) [
    | inl empty ↦ rw empty ((plain.0, later 0))
    | inr (d, t, begun) ↦
        let ref : IsPlain p.taken = Each-left _ p.taken p.rest (subst IsPlain (sym splits) plain) in
        let ref' : IsPlain (String.◌∷◌ d t) = subst IsPlain begun ref in
        let next : IsApart (drop_chars (suc (chars t) - 1) s) =
          subst IsApart (sym (rest_of p c d s t begun splits)) ends in
        rw begun
          ((ref', (cut-Follows (suc (chars t) - 1) (some c) s next, later (suc (chars t) - 1))))
  ]

  cut-IsClear :
      (skip : ℕ) (before : Option Char) (s : String)
      → IsPlain s
      → IsClear (cut u true business_ref skip before s)
  unfolding cut
  cut-IsClear zero before String.[] plain = tt
  cut-IsClear (suc k) before String.[] plain = tt
  cut-IsClear (suc k) before (String.◌∷◌ c s) plain = cut-IsClear k (some c) s plain.1
  cut-IsClear zero before (String.◌∷◌ c s) plain =
      step-IsClear (match_at u true business_ref before (String.◌∷◌ c s)) c s plain
        (match_at-Splits u true business_ref before (String.◌∷◌ c s))
        (match_at-OnMatch u true business_ref (IsEnd u digits) before (String.◌∷◌ c s) (
          business_ref-IsEnd u digits
            (record { prev = before; taken = ""; rest = String.◌∷◌ c s })))
        (λ skip. cut-IsClear skip (some c) s plain.1)

-- Taking the business references out of a text and putting them back gives the text again, for
-- every text without NUL, where the character database takes every digit for a word character.
pub unshield-shield_business_refs :
    (u : Database) (text : String)
    → ((c : ℕ) → is_digit u c ≡ true → is_word u c ≡ true)
    → has_no_nul text ≡ true
    → let (shielded, saved) = shield_business_refs u text in
      unshield_business_refs shielded saved ≡ text
unfolding shield_business_refs unshield_business_refs pieces
unshield-shield_business_refs u text digits plain =
    let ps = pieces u true business_ref text in
    ap (λ t. unshield_from 0 t (stash 0 ps).1) (sym (nil-append (stash 0 ps).0))
    ∙ unshield_from-stash 0 "" ps tt
        (cut-IsClear u digits 0 none text (has_no_nul-IsPlain text plain))
    ∙ nil-append (joined ps)
    ∙ joined-pieces u true business_ref text

redact_text-count_spans :
    (u : Database) (text : String)
    → ((c : ℕ) → is_digit u c ≡ true → is_word u c ≡ true)
    → has_no_nul text ≡ true
    → count_spans u pii_patterns (shield_business_refs u text).0 ≡ []
    → redact_text u text ≡ text
unfolding redact_text
redact_text-count_spans u text digits plain clean =
    ap (λ t. unshield_business_refs t (shield_business_refs u text).1)
      (mask_all-count_spans u pii_patterns (shield_business_refs u text).0 clean)
    ∙ unshield-shield_business_refs u text digits plain

-- A text without NUL in which `find_pii` finds nothing passes the redaction unchanged, whatever
-- business references it names, where the character database takes every digit for a word
-- character.
pub redact_pii_plain :
    (u : Database) (text : String)
    → ((c : ℕ) → is_digit u c ≡ true → is_word u c ≡ true)
    → has_no_nul text ≡ true
    → find_pii u (some text) ≡ []
    → redact_pii u (some text) ≡ text
unfolding redact_pii find_pii
redact_pii_plain u String.[] digits plain clean = refl
redact_pii_plain u (String.◌∷◌ c s) digits plain clean =
    redact_text-count_spans u (String.◌∷◌ c s) digits plain clean
