-- ===== src/Platform.antt =====
-- What the tools use of Python and of SQLite. `int`, `strip` and `LIKE` are written out; the texts
-- that the interpreter makes for other values and for its exceptions are parameters.
use deskfleet_ticketwarden.Base.{
  ℕ, suc, ◌+◌, ◌*◌, ◌-◌, ℤ, code, String, Bool, true, false, ◌&&◌, ◌||◌, Option, none, some,
  is_empty, show, ◌<>◌, ◌==◌, ltb, if◌then◌else◌,
}
use deskfleet_ticketwarden.Unicode.{Database, is_space, digit_value, is_ascii_upper}
use deskfleet_ticketwarden.Value.{Value, text, int, Pairs}

pub record Platform : Type 0 where
  pub unicode : Database
  -- `str(value)` for a value that is neither a text nor an integer
  pub repr : Value → String
  -- the text that SQLite compares a TEXT column with, for a bound number
  pub sql_text : Value → String
  -- `json.dumps(value, default=str)`
  pub dumps : Value → String
  -- messages: a call with the wrong keyword arguments, a parameter of a type that SQLite does not
  -- take, an integer that does not fit 64 bits
  pub signature_error : String → Pairs → String
  pub binding_error : Value → String
  pub overflow_error : String

abbrev pub show_int : ℤ → String
show_int (ℤ.pos n) = show n
show_int (ℤ.negsuc n) = "-" <> show (suc n)

-- `str(value)`
unfoldable pub py_str : Platform → Value → String
unfolding show
py_str P (text s) = s
py_str P (int n) = show_int n
py_str P v = P.repr v

module _ (u : Database) where
  unfoldable pub lstrip : String → String
  unfolding is_space
  lstrip String.[] = ""
  lstrip (String.◌∷◌ c s) =
      let rest = lstrip s in if is_space u (code c) then rest else String.◌∷◌ c s

  unfoldable pub rstrip : String → String
  unfolding is_space
  rstrip String.[] = ""
  rstrip (String.◌∷◌ c s) =
      let rest = rstrip s in if is_empty rest && is_space u (code c) then "" else String.◌∷◌ c rest

  unfoldable pub strip : String → String
  unfolding lstrip rstrip
  strip s = rstrip (lstrip s)

  -- The digits of `int`: an underscore may stand between two of them.
  unfoldable pub digits_from : Bool → ℕ → String → Option ℕ
  unfolding digit_value
  digits_from after_digit n String.[] = if after_digit then some n else none
  digits_from after_digit n (String.◌∷◌ c s) = elim (digit_value u (code c)) [
    | some d ↦ digits_from true (10 * n + d) s
    | none ↦ elim (code c == b'_' && after_digit) [ true ↦ digits_from false n s | false ↦ none ]
  ]

  unfoldable pub digit_count : String → ℕ
  unfolding digit_value
  digit_count String.[] = 0
  digit_count (String.◌∷◌ c s) = elim (digit_value u (code c)) [
    | some d ↦ suc (digit_count s)
    | none ↦ digit_count s
  ]

  -- Python refuses to convert more than 4300 digits.
  abbrev natural : String → Option ℕ
  natural s = if ltb 4300 (digit_count s) then none else digits_from false 0 s

  abbrev pub negate : ℕ → ℤ
  negate n = if n == 0 then ℤ.pos 0 else ℤ.negsuc (n - 1)

  abbrev signed : String → Option ℤ
  signed String.[] = none
  signed (String.◌∷◌ c s) =
      if code c == b'-'
      then elim (natural s) [ none ↦ none | some n ↦ some (negate n) ]
      else if code c == b'+'
      then elim (natural s) [ none ↦ none | some n ↦ some (ℤ.pos n) ]
      else elim (natural (String.◌∷◌ c s)) [ none ↦ none | some n ↦ some (ℤ.pos n) ]

  -- `int(s)`, where `none` is a `ValueError`
  unfoldable pub parse_int : String → Option ℤ
  unfolding strip digits_from digit_count
  parse_int s = signed (strip s)

-- An integer that SQLite takes.
abbrev pub fits_sqlite : ℤ → Bool
fits_sqlite (ℤ.pos n) = ltb n 0x8000000000000000
fits_sqlite (ℤ.negsuc n) = ltb n 0x8000000000000000

abbrev fold_case : ℕ → ℕ
fold_case c = if is_ascii_upper c then c + 32 else c

-- `text LIKE pattern`: `%` is any run of characters, `_` any one, and ASCII letters match in
-- either case.
unfoldable pub like : String → String → Bool
like String.[] String.[] = true
like String.[] (String.◌∷◌ d s) = false
like (String.◌∷◌ c p) String.[] = code c == b'%' && like p ""
like (String.◌∷◌ c p) (String.◌∷◌ d s) =
    let skip = like p (String.◌∷◌ d s) || like (String.◌∷◌ c p) s in
    let same = like p s in
    if code c == b'%'
    then skip
    else if code c == b'_' || fold_case (code c) == fold_case (code d)
    then same
    else false
