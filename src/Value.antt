-- ===== src/Value.antt =====
-- The values that go through tools and JSON: arguments, results, database cells.
use deskfleet_ticketwarden.Base.{
  ℕ, zero, suc, ℤ, String, Bool, true, false, Option, none, some, str_eq, if◌then◌else◌,
}

mutual
  pub data Value : Type 0 where
    null : Value
    bool : Bool → Value
    int : ℤ → Value
    -- an amount of money, in hundredths
    amount : ℕ → Value
    text : String → Value
    list : Elements → Value
    dict : Pairs → Value

  -- a `dict` with text keys, in insertion order
  pub data Pairs : Type 0 where
    no_pairs : Pairs
    pair : String → Value → Pairs → Pairs

  pub data Elements : Type 0 where
    no_elements : Elements
    element : Value → Elements → Elements

-- `d.get(key)`; a literal `dict` in the source has each key once
abbrev pub get : String → Pairs → Option Value
get k no_pairs = none
get k (pair j v d) = if str_eq j k then some v else get k d

-- Python's truth of a value, as `result.get("error")` is tested.
abbrev pub is_truthy : Value → Bool
is_truthy null = false
is_truthy (bool b) = b
is_truthy (int (ℤ.pos n)) = elim n [ zero ↦ false | suc m ↦ true ]
is_truthy (int (ℤ.negsuc n)) = true
is_truthy (amount n) = elim n [ zero ↦ false | suc m ↦ true ]
is_truthy (text s) = elim s [ String.[] ↦ false | String.◌∷◌ c t ↦ true ]
is_truthy (list no_elements) = false
is_truthy (list (element v xs)) = true
is_truthy (dict no_pairs) = false
is_truthy (dict (pair k v d)) = true

abbrev pub optional_text : Option String → Value
optional_text none = null
optional_text (some s) = text s
