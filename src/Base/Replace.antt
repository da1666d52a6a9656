-- ===== src/Base/Replace.antt =====
-- `str.replace(old, new)` for an `old` that is not empty: the occurrences from the left that do not
-- overlap.
use Prim.Native.Nat.{ℕ, zero, suc, ◌-◌}
use Prim.Native.Char.{code}
use Prim.Native.String.{String, [], ◌∷◌, ◌++◌}
use mathlib.Core.Bool.{Bool, true, false, ◌&&◌}
use deskfleet_ticketwarden.Base.Bools.{◌==◌, if◌then◌else◌}
use deskfleet_ticketwarden.Base.Texts.{chars}

abbrev pub is_prefix : String → String → Bool
is_prefix [] s = true
is_prefix (c ∷ p) [] = false
is_prefix (c ∷ p) (d ∷ s) = code c == code d && is_prefix p s

module _ (old new : String) where
  unfoldable pub replace_from : ℕ → String → String
  replace_from skip [] = ""
  replace_from (suc k) (c ∷ s) = replace_from k s
  replace_from zero (c ∷ s) =
      let found = new ++ replace_from (chars old - 1) s in
      let next = c ∷ replace_from 0 s in if is_prefix old (c ∷ s) then found else next

  unfoldable pub replace : String → String
  unfolding replace_from
  replace s = replace_from 0 s
