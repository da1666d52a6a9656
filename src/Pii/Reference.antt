-- ===== src/Pii/Reference.antt =====
-- Where a match of `_BUSINESS_REF` ends (guardrails/pii.py).
use deskfleet_ticketwarden.Base.{
  chars, ==_iff, not, ℕ, zero, suc, Char, code, String, ◌≡◌, true, Option, some, none, List, All,
  Bool-cases, inl, inr, ◌==◌,
}
use deskfleet_ticketwarden.Unicode.{Database, is_digit, is_word}
use deskfleet_ticketwarden.Regex.{
  star_from, ◌▷◌, one_char, times_from, Regex, Position, run, holds_of, next,
}
use deskfleet_ticketwarden.Regex.Sound.{All-flat_map, All-only_if, star_from-Keeps}
use deskfleet_ticketwarden.Pii.{business_ref}
use deskfleet_ticketwarden.Pii.Placeholder.{IsApart}

All-Unit : (ps : List Position) → All {0, 0} (λ q. Unit) ps
All-Unit List.[] = tt
All-Unit (List.◌∷◌ p ps) = (tt, All-Unit ps)

-- A match of `_BUSINESS_REF` ends where a word ends: what is left does not begin with a letter.
module _ (u : Database) (digits : (c : ℕ) → is_digit u c ≡ true → is_word u c ≡ true) where
  abbrev IsAfterDigit : Position → Type 0
  IsAfterDigit p = holds_of (is_digit u) p.prev ≡ true

  abbrev pub IsEnd : Position → Type 0
  IsEnd p = IsApart p.rest

  one_char-IsAfterDigit :
      (prev : Option Char) (taken rest : String)
      → All IsAfterDigit
          (one_char (λ c. is_digit u (code c)) (record { prev = prev; taken = taken; rest = rest }))
  one_char-IsAfterDigit prev taken String.[] = tt
  one_char-IsAfterDigit prev taken (String.◌∷◌ c s) = elim (Bool-cases (is_digit u (code c))) [
    | inl yes_ ↦ rw yes_ (yes_, tt)
    | inr no_ ↦ rw no_ tt
  ]

  digit-IsAfterDigit : (p : Position) → All IsAfterDigit (run u true Regex.digit p)
  unfolding run
  digit-IsAfterDigit p = one_char-IsAfterDigit p.prev p.taken p.rest

  digits-IsAfterDigit :
      (n : ℕ) (p : Position) → All IsAfterDigit (times_from (run u true Regex.digit) (suc n) p)
  unfolding times_from
  digits-IsAfterDigit zero p =
      All-flat_map IsAfterDigit IsAfterDigit (λ q. List.◌∷◌ q List.[]) (λ q h. (h, tt))
        (run u true Regex.digit p) (digit-IsAfterDigit p)
  digits-IsAfterDigit (suc n) p =
      All-flat_map IsAfterDigit IsAfterDigit _ (λ q h. digits-IsAfterDigit n q)
        (run u true Regex.digit p) (digit-IsAfterDigit p)

  word_of_digit : (o : Option Char) → holds_of (is_digit u) o ≡ true → holds_of (is_word u) o ≡ true
  word_of_digit none h = h
  word_of_digit (some c) h = digits (code c) h

  boundary-IsApart :
      (prev : Option Char) (taken rest : String)
      → not (holds_of (is_word u) (next (record { prev = prev; taken = taken; rest = rest })))
        ≡ true
      → IsApart rest
  unfolding is_word
  boundary-IsApart prev taken String.[] h = tt
  boundary-IsApart prev taken (String.◌∷◌ c s) h = elim (Bool-cases (code c == b'R')) [
    | inl letter ↦ let h' : not (is_word u b'R') ≡ true = rw ((==_iff _ _).0 letter) at h in cc
    | inr other ↦ other
  ]

  boundary-IsEnd : (p : Position) → IsAfterDigit p → All IsEnd (run u true Regex.boundary p)
  unfolding run
  boundary-IsEnd p after = All-only_if IsEnd _ p (λ here.
      let h : not (holds_of (is_word u) (next p)) ≡ true =
        rw (word_of_digit p.prev after) at here in
      boundary-IsApart p.prev p.taken p.rest h)

  after-IsEnd :
      (r s : Regex) (p : Position)
      → ((q : Position) → All IsEnd (run u true s q))
      → All IsEnd (run u true (r ▷ s) p)
  unfolding run
  after-IsEnd r s p ends =
      All-flat_map (λ q. Unit) IsEnd (run u true s) (λ q h. ends q) (run u true r p)
        (All-Unit (run u true r p))

  number-IsEnd :
      (p : Position)
      → All IsEnd
          (run u true (Regex.times 3 Regex.digit ▷ Regex.star Regex.digit ▷ Regex.boundary) p)
  unfolding run
  number-IsEnd p =
      All-flat_map IsAfterDigit IsEnd _
        (λ q after.
          let more = star_from (run u true Regex.digit) (chars q.rest) q in
          All-flat_map IsAfterDigit IsEnd (run u true Regex.boundary) boundary-IsEnd more (
            star_from-Keeps IsAfterDigit (run u true Regex.digit) (λ r h. digit-IsAfterDigit r)
              (chars q.rest) q after))
        (run u true (Regex.times 3 Regex.digit) p) (digits-IsAfterDigit 2 p)

  pub business_ref-IsEnd : (p : Position) → All IsEnd (run u true business_ref p)
  business_ref-IsEnd p =
      after-IsEnd _ _ p
        (λ q. after-IsEnd _ _ q (λ r. after-IsEnd _ _ r (λ s. after-IsEnd _ _ s number-IsEnd)))
