-- ===== src/Pii/Laws.antt =====
-- Redaction where nothing is found (guardrails/pii.py).
use deskfleet_ticketwarden.Base.{
  String-cases, ◌-◌, chars, true, false, ℕ, suc, String, Char, ◌≡◌, refl, List, [], ◌∷◌, Option,
  none, some, Bool, Bool-cases, inl, inr, ==_iff, ◌==◌, arith,
}
use deskfleet_ticketwarden.Unicode.{Database}
use deskfleet_ticketwarden.Regex.{
  Regex, Piece, Position, keep, hit, pieces, cut, match_at, piece_of, behind,
}
use deskfleet_ticketwarden.Pii.{
  cover, hit_count, stash, shield_business_refs, mask_all, redact_pii, redact_text, find_pii,
  count_spans, unshield_business_refs, unshield_from, business_ref, pii_patterns,
}

-- A text without a match, in pieces.
abbrev keeps : String → List Piece
keeps String.[] = []
keeps (String.◌∷◌ c s) = keep c ∷ keeps s

cover-keeps : (s : String) → cover (keeps s) ≡ s
unfolding cover
cover-keeps String.[] = refl
cover-keeps (String.◌∷◌ c s) = rw (cover-keeps s) refl

stash-keeps : (i : ℕ) (s : String) → stash i (keeps s) ≡ (s, [])
unfolding stash
stash-keeps i String.[] = refl
stash-keeps i (String.◌∷◌ c s) = rw (stash-keeps i s) refl

module _ (u : Database) (ignore_case : Bool) (r : Regex) where
  -- One step of the cut: a piece that is no match is the next character, and none is skipped.
  step-keeps :
      (o : Option Position) (c : Char) (s : String)
      → hit_count (piece_of o c ∷ cut u ignore_case r (behind o) (some c) s) ≡ 0
      → (hit_count (cut u ignore_case r 0 (some c) s) ≡ 0
          → cut u ignore_case r 0 (some c) s ≡ keeps s)
      → piece_of o c ∷ cut u ignore_case r (behind o) (some c) s ≡ keep c ∷ keeps s
  step-keeps none c s h k = rw (k h) refl
  step-keeps (some p) c s h k = elim (String-cases p.taken) [
    | inl empty ↦
        let h' : hit_count (cut u ignore_case r 0 (some c) s) ≡ 0 = rw empty at h in
        rw (empty, k h') refl
    | inr (d, t, found) ↦
        let h' : suc (hit_count (cut u ignore_case r (suc (chars t) - 1) (some c) s)) ≡ 0 =
          rw found at h in
        absurd (omega (arith, h'))
  ]

  cut-keeps :
      (before : Option Char) (s : String)
      → hit_count (cut u ignore_case r 0 before s) ≡ 0
      → cut u ignore_case r 0 before s ≡ keeps s
  unfolding cut
  cut-keeps before String.[] h = refl
  cut-keeps before (String.◌∷◌ c s) h =
      step-keeps (match_at u ignore_case r before (String.◌∷◌ c s)) c s h (cut-keeps (some c) s)

  pieces-keeps :
      (s : String) → hit_count (pieces u ignore_case r s) ≡ 0 → pieces u ignore_case r s ≡ keeps s
  unfolding pieces
  pieces-keeps s h = cut-keeps none s h

-- What `stash` saves is as long as the number of matches.
stash_none : (i : ℕ) (ps : List Piece) → (stash i ps).1 ≡ [] → hit_count ps ≡ 0
unfolding stash
stash_none i [] h = refl
stash_none i (keep c ∷ ps) h = stash_none i ps h
stash_none i (hit ref ∷ ps) h = cc

module _ (u : Database) where
  shield_none :
      (text : String)
      → (shield_business_refs u text).1 ≡ []
      → shield_business_refs u text ≡ (text, [])
  unfolding shield_business_refs
  shield_none text h =
      rw
        (
          shield_business_refs,
          pieces-keeps u true business_ref text (stash_none 0 (pieces u true business_ref text) h),
        )
        (stash-keeps 0 text)

  pub mask_all-count_spans :
      (ps : List (String × Regex)) (text : String)
      → count_spans u ps text ≡ []
      → mask_all u ps text ≡ text
  unfolding mask_all count_spans
  mask_all-count_spans [] text h = refl
  mask_all-count_spans ((label, pattern) ∷ ps) text h =
      elim (Bool-cases (hit_count (pieces u false pattern text) == 0)) [
        | inl none_ ↦
            let same : cover (pieces u false pattern text) ≡ text =
              rw (pieces-keeps u false pattern text ((==_iff _ _).0 none_)) (cover-keeps text) in
            let h' : count_spans u ps text ≡ [] = rw none_ at h in
            rw same (mask_all-count_spans ps text h')
        | inr some_ ↦
            let h' : (label, hit_count (pieces u false pattern text)) ∷ count_spans u ps text ≡ [] =
              rw some_ at h in
            cc
      ]

  redact_text_plain :
      (text : String)
      → shield_business_refs u text ≡ (text, [])
      → mask_all u pii_patterns text ≡ text
      → redact_text u text ≡ text
  unfolding redact_text unshield_business_refs unshield_from
  redact_text_plain text h k = rw (redact_text, h, k) refl

-- A text in which `find_pii` finds nothing and that names no business reference passes the
-- redaction unchanged.
pub redact_pii-find_pii :
    (u : Database) (text : String)
    → find_pii u (some text) ≡ []
    → (shield_business_refs u text).1 ≡ []
    → redact_pii u (some text) ≡ text
unfolding redact_pii find_pii
redact_pii-find_pii u String.[] h k = refl
redact_pii-find_pii u (String.◌∷◌ c s) h k =
    let text = String.◌∷◌ c s in
    let plain = shield_none u text k in
    let h' : count_spans u pii_patterns text ≡ [] = rw plain at h in
    redact_text_plain u text plain (mask_all-count_spans u pii_patterns text h')
