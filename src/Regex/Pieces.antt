-- ===== src/Regex/Pieces.antt =====
-- `finditer` and `sub` of Python's `re` lose nothing: the pieces of a text are the text.
use text.Mathlib.TextLemmas.{cons-append, nil-append}
use deskfleet_ticketwarden.Base.{
  inr, inl, String-cases, ℕ, zero, suc, ◌-◌, Char, String, ◌<>◌, ◌≡◌, refl, ap, sym, ◌∙◌, Bool,
  Option, some, none, List, All, chars, arith,
}
use deskfleet_ticketwarden.Unicode.{Database}
use deskfleet_ticketwarden.Regex.{
  Regex, Position, run, match_at, Piece, keep, hit, piece_of, behind, cut, pieces,
}
use deskfleet_ticketwarden.Regex.Sound.{run-Splits, Splits}

-- The pieces in a row.
abbrev pub joined : List Piece → String
joined List.[] = ""
joined (List.◌∷◌ (keep c) ps) = String.◌∷◌ c (joined ps)
joined (List.◌∷◌ (hit span) ps) = span <> joined ps

abbrev pub drop_chars : ℕ → String → String
drop_chars zero s = s
drop_chars (suc n) String.[] = ""
drop_chars (suc n) (String.◌∷◌ c s) = drop_chars n s

pub drop_chars-append : (s t : String) → drop_chars (chars s) (s <> t) ≡ t
drop_chars-append String.[] t = nil-append t
drop_chars-append (String.◌∷◌ c s) t = rw cons-append (drop_chars-append s t)

-- What holds of the match, if there is one.
abbrev pub OnMatch : (Position → Type 0) → Option Position → Type 0
OnMatch J none = Unit
OnMatch J (some p) = J p

-- What is left behind a match that is not empty.
pub rest_of :
    (p : Position) (c d : Char) (s t : String)
    → p.taken ≡ String.◌∷◌ d t
    → p.taken <> p.rest ≡ String.◌∷◌ c s
    → drop_chars (suc (chars t) - 1) s ≡ p.rest
rest_of p c d s t begun splits =
    let whole : String.◌∷◌ d (t <> p.rest) ≡ String.◌∷◌ c s =
      sym (cons-append d t p.rest) ∙ ap (λ k. k <> p.rest) (sym begun) ∙ splits in
    let one_less : suc (chars t) - 1 ≡ chars t = omega arith in
    rw (one_less, sym (ap (drop_chars 1) whole)) (drop_chars-append t p.rest)

first-OnMatch :
    (J : Position → Type 0) (ps : List Position)
    → All J ps
    → OnMatch J (elim ps [ List.[] ↦ none | List.◌∷◌ p ps ↦ some p ])
first-OnMatch J List.[] h = tt
first-OnMatch J (List.◌∷◌ p ps) h = h.0

module _ (u : Database) (ignore_case : Bool) (r : Regex) where
  pub match_at-OnMatch :
      (J : Position → Type 0) (before : Option Char) (s : String)
      → All J (run u ignore_case r (record { prev = before; taken = ""; rest = s }))
      → OnMatch J (match_at u ignore_case r before s)
  unfolding match_at
  match_at-OnMatch J before s h = first-OnMatch J _ h

  pub match_at-Splits :
      (before : Option Char) (s : String)
      → OnMatch (Splits u ignore_case s) (match_at u ignore_case r before s)
  match_at-Splits before s =
      match_at-OnMatch (Splits u ignore_case s) before s
        (run-Splits u ignore_case s r _ (nil-append s))

  joined-step :
      (o : Option Position) (c : Char) (s : String)
      → OnMatch (Splits u ignore_case (String.◌∷◌ c s)) o
      → ((skip : ℕ) → joined (cut u ignore_case r skip (some c) s) ≡ drop_chars skip s)
      → joined (List.◌∷◌ (piece_of o c) (cut u ignore_case r (behind o) (some c) s))
        ≡ String.◌∷◌ c s
  joined-step none c s splits later = ap (String.◌∷◌ c) (later 0)
  joined-step (some p) c s splits later = elim (String-cases p.taken) [
    | inl empty ↦ rw empty (ap (String.◌∷◌ c) (later 0))
    | inr (d, t, begun) ↦ rw begun (
        ap (λ k. String.◌∷◌ d t <> k) (later _ ∙ rest_of p c d s t begun splits)
        ∙ ap (λ k. k <> p.rest) (sym begun)
        ∙ splits)
  ]

  joined-cut :
      (skip : ℕ) (before : Option Char) (s : String)
      → joined (cut u ignore_case r skip before s) ≡ drop_chars skip s
  unfolding cut
  joined-cut zero before String.[] = refl
  joined-cut (suc k) before String.[] = refl
  joined-cut (suc k) before (String.◌∷◌ c s) = joined-cut k (some c) s
  joined-cut zero before (String.◌∷◌ c s) =
      joined-step (match_at u ignore_case r before (String.◌∷◌ c s)) c s
        (match_at-Splits before (String.◌∷◌ c s)) (λ skip. joined-cut skip (some c) s)

  pub joined-pieces : (s : String) → joined (pieces u ignore_case r s) ≡ s
  unfolding pieces
  joined-pieces s = joined-cut 0 none s
