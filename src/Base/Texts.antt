-- ===== src/Base/Texts.antt =====
-- Python's `str` as the native `String`, walked character by character.
pub mod Decimal
use Prim.Native.Nat.{ℕ, zero, suc, ◌/◌, ◌%◌}
use Prim.Native.Char.{Char}
use Prim.Native.String.{String, [], ◌∷◌, ◌++◌}
use mathlib.Core.Bool.{Bool, true, false}
use mathlib.Core.List.{List}
use mathlib.Core.Option.{Option, none, some}
use text.Mathlib.Text.{◌==◌}
use deskfleet_ticketwarden.Base.Bools.{if◌then◌else◌, ltb}

-- `not text`
abbrev pub is_empty : String → Bool
is_empty [] = true
is_empty (c ∷ s) = false

-- Characters in a text.
abbrev pub chars : String → ℕ
chars [] = 0
chars (c ∷ s) = suc (chars s)

abbrev pub push : String → Char → String
push s c = s ++ (c ∷ [])

-- `o or None` on an optional text: an empty text counts as missing.
abbrev pub truthy : Option String → Option String
truthy none = none
truthy (some s) = if is_empty s then none else some s

-- `o or ""`
abbrev pub text_or_empty : Option String → String
text_or_empty none = ""
text_or_empty (some s) = s

-- `sep.join(parts)`
unfoldable pub join : String → List String → String
join sep List.[] = ""
join sep (List.◌∷◌ s List.[]) = s
join sep (List.◌∷◌ s (List.◌∷◌ t ts)) = s ++ (sep ++ join sep (List.◌∷◌ t ts))

-- `x in {…}` for texts.
abbrev pub one_of : String → List String → Bool
one_of s List.[] = false
one_of s (List.◌∷◌ t ts) = if s == t then true else one_of s ts

abbrev digit_text : ℕ → String
digit_text zero = "0"
digit_text (suc zero) = "1"
digit_text (suc (suc zero)) = "2"
digit_text (suc (suc (suc zero))) = "3"
digit_text (suc (suc (suc (suc zero)))) = "4"
digit_text (suc (suc (suc (suc (suc zero))))) = "5"
digit_text (suc (suc (suc (suc (suc (suc zero)))))) = "6"
digit_text (suc (suc (suc (suc (suc (suc (suc zero))))))) = "7"
digit_text (suc (suc (suc (suc (suc (suc (suc (suc zero)))))))) = "8"
digit_text _ = "9"

show_from : ℕ → ℕ → String → String
show_from zero n acc = acc
show_from (suc fuel) n acc =
    let rest = show_from fuel (n / 10) (digit_text (n % 10) ++ acc) in
    if ltb n 10 then digit_text n ++ acc else rest

-- `str(n)` for a number that is not negative; it has at most `n + 1` digits.
unfoldable pub show : ℕ → String
unfolding show_from
show n = show_from (suc n) n ""
