-- ===== src/Unicode.antt =====
-- The character data on which Python's `re`, `str` and `unicodedata` rest. ASCII is written out;
-- the rest of the Unicode database is not part of the repository and is a parameter.
use deskfleet_ticketwarden.Base.{
  ℕ, ◌+◌, ◌-◌, code, String, Bool, true, false, ◌&&◌, ◌||◌, List, [], ◌∷◌, Option, none, some, ◌==◌,
  leb, ltb, if◌then◌else◌,
}

-- What the database says of the characters outside ASCII.
pub record Database : Type 0 where
  pub word : ℕ → Bool
  pub digit : ℕ → Option ℕ
  pub space : ℕ → Bool
  -- the characters that a pattern with `re.I` takes for this one
  pub variants : ℕ → List ℕ
  -- `str.lower`, on texts that are not ASCII
  pub lower : String → String
  -- `unicodedata.normalize("NFKC", text)`, on texts that are not ASCII
  pub nfkc : String → String

abbrev pub between : ℕ → ℕ → ℕ → Bool
between lo hi c = leb lo c && leb c hi

abbrev pub is_ascii_upper : ℕ → Bool
is_ascii_upper c = between b'A' b'Z' c

abbrev pub is_ascii_lower : ℕ → Bool
is_ascii_lower c = between b'a' b'z' c

abbrev pub is_ascii_digit : ℕ → Bool
is_ascii_digit c = between b'0' b'9' c

module _ (u : Database) where
  -- `\d`
  unfoldable pub is_digit : ℕ → Bool
  is_digit c =
      if ltb c 128 then is_ascii_digit c else elim (u.digit c) [ none ↦ false | some d ↦ true ]

  -- the value of a digit, for `int`
  unfoldable pub digit_value : ℕ → Option ℕ
  digit_value c =
      if ltb c 128 then (if is_ascii_digit c then some (c - b'0') else none) else u.digit c

  -- `\w`
  unfoldable pub is_word : ℕ → Bool
  is_word c =
      if ltb c 128
      then is_ascii_upper c || is_ascii_lower c || is_ascii_digit c || c == b'_'
      else u.word c

  -- `\s` and `str.isspace`
  unfoldable pub is_space : ℕ → Bool
  is_space c = if ltb c 128 then c == 32 || between 9 13 c || between 28 31 c else u.space c

  -- the spellings of a character under `re.I`
  unfoldable pub variants : ℕ → List ℕ
  variants c =
      if ltb c 128
      then (if is_ascii_upper c
          then c ∷ (c + 32) ∷ []
          else if is_ascii_lower c
          then c ∷ (c - 32) ∷ []
          else c ∷ [])
      else u.variants c

abbrev pub is_ascii : String → Bool
is_ascii String.[] = true
is_ascii (String.◌∷◌ c s) = ltb (code c) 128 && is_ascii s

-- `unicodedata.normalize("NFKC", text)`: ASCII texts are in that form already.
unfoldable pub nfkc : Database → String → String
nfkc u s = if is_ascii s then s else u.nfkc s
