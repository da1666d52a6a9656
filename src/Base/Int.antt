-- ===== src/Base/Int.antt =====
-- Python's integers; `negsuc n` is -(n + 1).
use Prim.Native.Nat.{ℕ, suc, ◌-◌}
use mathlib.Core.Bool.{Bool, true, false}
use mathlib.Core.List.{List}
use deskfleet_ticketwarden.Base.Bools.{leb, ◌==◌}
use deskfleet_ticketwarden.Base.Lists.{length, take}

pub data ℤ : Type 0 where
  pos : ℕ → ℤ
  negsuc : ℕ → ℤ

-- `n >= k` for a count `n`
abbrev pub reaches : ℕ → ℤ → Bool
reaches n (pos k) = leb k n
reaches n (negsuc k) = true

abbrev pub int_beq : ℤ → ℤ → Bool
int_beq (pos m) (pos n) = m == n
int_beq (negsuc m) (negsuc n) = m == n
int_beq _ _ = false

-- `xs[:k]`: a negative bound counts from the end.
abbrev pub slice_to {ℓ} : {A : Type ℓ} → ℤ → List A → List A
slice_to (pos n) xs = take n xs
slice_to (negsuc n) xs = take (length xs - suc n) xs
