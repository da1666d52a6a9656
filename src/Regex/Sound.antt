-- ===== src/Regex/Sound.antt =====
-- What the matches of Python's `re` are: parts of the text at which the pattern was tried.
use text.Mathlib.TextLemmas.{cons-append, nil-append, append_assoc}
use deskfleet_ticketwarden.Base.{
  ℕ, zero, suc, Char, String, ◌<>◌, ◌≡◌, refl, ap, ◌∙◌, Bool, true, false, Option, List, All,
  All-append, flat_map, Bool-cases, inl, inr,
}
use deskfleet_ticketwarden.Unicode.{Database}
use deskfleet_ticketwarden.Regex.{
  Regex, Position, run, star_from, lazy_from, times_from, one_char, only_if,
}

pub All-flat_map :
    (I J : Position → Type 0) (f : Position → List Position)
    → ((q : Position) → I q → All J (f q))
    → (ps : List Position) → All I ps
    → All J (flat_map f ps)
All-flat_map I J f step List.[] h = tt
All-flat_map I J f step (List.◌∷◌ p ps) h =
    All-append J (f p) (flat_map f ps) (step p h.0) (All-flat_map I J f step ps h.1)

pub All-only_if :
    (I : Position → Type 0) (b : Bool) (p : Position) → (b ≡ true → I p) → All I (only_if b p)
All-only_if I true p h = (h refl, tt)
All-only_if I false p h = tt

-- What one step keeps, a loop keeps.
module _ (I : Position → Type 0) (step : Position → List Position) where
  module _ (keeps : (p : Position) → I p → All I (step p)) where
    pub star_from-Keeps : (n : ℕ) (p : Position) → I p → All I (star_from step n p)
    unfolding star_from
    star_from-Keeps zero p h = (h, tt)
    star_from-Keeps (suc n) p h =
        All-append I _ _ (All-flat_map I I _ (star_from-Keeps n) (step p) (keeps p h)) (h, tt)

    lazy_from-Keeps : (n : ℕ) (p : Position) → I p → All I (lazy_from step n p)
    unfolding lazy_from
    lazy_from-Keeps zero p h = (h, tt)
    lazy_from-Keeps (suc n) p h = (h, All-flat_map I I _ (lazy_from-Keeps n) (step p) (keeps p h))

    times_from-Keeps : (n : ℕ) (p : Position) → I p → All I (times_from step n p)
    unfolding times_from
    times_from-Keeps zero p h = (h, tt)
    times_from-Keeps (suc n) p h = All-flat_map I I _ (times_from-Keeps n) (step p) (keeps p h)

module _ (u : Database) (ignore_case : Bool) (text : String) where
  -- What is taken and what is left make the text.
  abbrev pub Splits : Position → Type 0
  Splits p = p.taken <> p.rest ≡ text

  one_char-Splits :
      (ok : Char → Bool) (prev : Option Char) (taken rest : String)
      → taken <> rest ≡ text
      → All Splits (one_char ok (record { prev = prev; taken = taken; rest = rest }))
  one_char-Splits ok prev taken String.[] h = tt
  one_char-Splits ok prev taken (String.◌∷◌ c s) h = elim (Bool-cases (ok c)) [
    | inl yes_ ↦
        let joined : String.◌∷◌ c "" <> s ≡ String.◌∷◌ c s =
          cons-append c "" s ∙ ap (String.◌∷◌ c) (nil-append s) in
        rw yes_ ((append_assoc taken _ s ∙ ap (λ t. taken <> t) joined ∙ h, tt))
    | inr no_ ↦ rw no_ tt
  ]

  pub run-Splits : (r : Regex) (p : Position) → Splits p → All Splits (run u ignore_case r p)
  unfolding run
  run-Splits (Regex.set test) p h = one_char-Splits _ p.prev p.taken p.rest h
  run-Splits Regex.digit p h = one_char-Splits _ p.prev p.taken p.rest h
  run-Splits Regex.space p h = one_char-Splits _ p.prev p.taken p.rest h
  run-Splits Regex.word p h = one_char-Splits _ p.prev p.taken p.rest h
  run-Splits Regex.nonspace p h = one_char-Splits _ p.prev p.taken p.rest h
  run-Splits Regex.boundary p h = All-only_if Splits _ p (λ yes_. h)
  run-Splits Regex.not_after_digit p h = All-only_if Splits _ p (λ yes_. h)
  run-Splits Regex.not_before_digit p h = All-only_if Splits _ p (λ yes_. h)
  run-Splits Regex.empty p h = (h, tt)
  run-Splits (Regex.◌▷◌ r s) p h =
      All-flat_map Splits Splits (run u ignore_case s) (run-Splits s) (run u ignore_case r p)
        (run-Splits r p h)
  run-Splits (Regex.◌∪◌ r s) p h =
      All-append Splits (run u ignore_case r p) _ (run-Splits r p h) (run-Splits s p h)
  run-Splits (Regex.star r) p h = star_from-Keeps Splits (run u ignore_case r) (run-Splits r) _ p h
  run-Splits (Regex.lazy_star r) p h =
      lazy_from-Keeps Splits (run u ignore_case r) (run-Splits r) _ p h
  run-Splits (Regex.times n r) p h =
      times_from-Keeps Splits (run u ignore_case r) (run-Splits r) n p h
  run-Splits (Regex.up_to n r) p h =
      star_from-Keeps Splits (run u ignore_case r) (run-Splits r) n p h
