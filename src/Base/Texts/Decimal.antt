-- ===== src/Base/Texts/Decimal.antt =====
-- `str(n)` can be read back.
use Prim.Native.Nat.{ℕ, zero, suc, ◌+◌, ◌-◌, ◌*◌, ◌/◌, ◌%◌, ◌<◌, ◌≤◌}
use Prim.Native.Char.{Char, code}
use Prim.Native.String.{String, [], ◌∷◌, ◌++◌}
use mathlib.Core.Path.{◌≡◌, refl, sym, ap, ◌∙◌}
use mathlib.Core.Logic.{◌⊎◌, inl, inr}
use native.Mathlib.Omega.{arith}
use text.Mathlib.TextLemmas.{nil-append, cons-append}
use deskfleet_ticketwarden.Base.Bools.{ltb, Bool-cases}
use deskfleet_ticketwarden.Base.Texts.{digit_text, show_from, show}

-- The number that digits stand for behind others.
abbrev value_from : ℕ → String → ℕ
value_from n [] = n
value_from n (c ∷ s) = value_from (10 * n + (code c - 48)) s

-- A test of every character.
abbrev pub Each : (Char → Type 0) → String → Type 0
Each P [] = Unit
Each P (c ∷ s) = P c × Each P s

pub Each-append : (P : Char → Type 0) (s t : String) → Each P s → Each P t → Each P (s ++ t)
Each-append P [] t hs ht = rw (nil-append t) ht
Each-append P (c ∷ s) t hs ht = rw (cons-append c s t) (hs.0, Each-append P s t hs.1 ht)

one_digit : (d : ℕ) → d < 10 → (c : Char) × (digit_text d ≡ c ∷ []) × (code c ≡ 48 + d)
one_digit zero h = (_, refl, refl)
one_digit (suc zero) h = (_, refl, refl)
one_digit (suc (suc zero)) h = (_, refl, refl)
one_digit (suc (suc (suc zero))) h = (_, refl, refl)
one_digit (suc (suc (suc (suc zero)))) h = (_, refl, refl)
one_digit (suc (suc (suc (suc (suc zero))))) h = (_, refl, refl)
one_digit (suc (suc (suc (suc (suc (suc zero)))))) h = (_, refl, refl)
one_digit (suc (suc (suc (suc (suc (suc (suc zero))))))) h = (_, refl, refl)
one_digit (suc (suc (suc (suc (suc (suc (suc (suc zero)))))))) h = (_, refl, refl)
one_digit (suc (suc (suc (suc (suc (suc (suc (suc (suc zero))))))))) h = (_, refl, refl)
one_digit (suc (suc (suc (suc (suc (suc (suc (suc (suc (suc d)))))))))) h =
    absurd (omega (arith, h))

value_from-digit :
    (n d m : ℕ) (s : String)
    → d < 10
    → m ≡ 10 * n + d
    → value_from n (digit_text d ++ s) ≡ value_from m s
value_from-digit n d m s small sum =
    let (c, one, coded) = one_digit d small in
    rw (one, cons-append, nil-append, coded) (ap (λ k. value_from k s) (omega (arith, sum)))

value_from-show_from :
    (fuel n : ℕ) (acc : String) → n < fuel → value_from 0 (show_from fuel n acc) ≡ value_from n acc
unfolding show_from
value_from-show_from zero n acc h = absurd (omega (arith, h))
value_from-show_from (suc fuel) n acc h = elim (Bool-cases (ltb n 10)) [
  | inl small ↦ rw small (value_from-digit 0 n n acc (ground (arith, small)) (omega arith))
  | inr large ↦ rw large (
      value_from-show_from fuel (n / 10) (digit_text (n % 10) ++ acc) (ground (arith, large, h))
      ∙ value_from-digit (n / 10) (n % 10) n acc (omega arith) (omega arith))
]

-- Two numbers that print alike are the same.
pub show_inj : (m n : ℕ) → show m ≡ show n → m ≡ n
unfolding show
show_inj m n same =
    sym (value_from-show_from (suc m) m "" (omega arith))
    ∙ ap (value_from 0) same
    ∙ value_from-show_from (suc n) n "" (omega arith)

-- Every character of a number that is printed is a digit.
abbrev pub IsDigit : Char → Type 0
IsDigit c = (48 ≤ code c) × (code c < 58)

digit_text-IsDigit :
    (d : ℕ) (s : String) → d < 10 → Each IsDigit s → Each IsDigit (digit_text d ++ s)
digit_text-IsDigit d s small h =
    let (c, one, coded) = one_digit d small in
    rw (one, cons-append, nil-append) ((omega (arith, coded), omega (arith, coded, small)), h)

show_from-IsDigit :
    (fuel n : ℕ) (acc : String) → Each IsDigit acc → Each IsDigit (show_from fuel n acc)
unfolding show_from
show_from-IsDigit zero n acc h = h
show_from-IsDigit (suc fuel) n acc h = elim (Bool-cases (ltb n 10)) [
  | inl small ↦ rw small (digit_text-IsDigit n acc (ground (arith, small)) h)
  | inr large ↦ rw large (
      show_from-IsDigit fuel (n / 10) (digit_text (n % 10) ++ acc)
        (digit_text-IsDigit (n % 10) acc (omega arith) h))
]

pub show-IsDigit : (n : ℕ) → Each IsDigit (show n)
unfolding show
show-IsDigit n = show_from-IsDigit (suc n) n "" tt

pub Each-left : (P : Char → Type 0) (s t : String) → Each P (s ++ t) → Each P s
Each-left P [] t h = tt
Each-left P (c ∷ s) t h =
    let h' : Each P (c ∷ (s ++ t)) = rw cons-append at h in (h'.0, Each-left P s t h'.1)

pub String-cases : (s : String) → (s ≡ "") ⊎ ((c : Char) × (t : String) × (s ≡ c ∷ t))
String-cases [] = inl refl
String-cases (c ∷ t) = inr (c, t, refl)
