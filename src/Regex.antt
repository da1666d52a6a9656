-- ===== src/Regex.antt =====
-- Python's `re` as far as the guardrails use it: a backtracking matcher that lists every match at
-- a position in the order in which `re` tries them, so that the first is the one `re` reports.
pub mod Sound
pub mod Pieces
use Prim.Native.String.{String, [], ◌∷◌}
use mathlib.Core.List.{List, ◌++◌}
use deskfleet_ticketwarden.Base.{
  ℕ, zero, suc, ◌-◌, Char, code, Bool, true, false, not, Option, none, some, flat_map, any, push,
  chars, ◌==◌, if◌then◌else◌,
}
use deskfleet_ticketwarden.Unicode.{Database, is_word, is_digit, is_space, variants}

infixr 40 ◌▷◌
infixr 35 ◌∪◌
pub data Regex : Type 0 where
  -- a character for which a test holds; with `re.I`, for which it holds of some spelling
  set : (ℕ → Bool) → Regex
  -- `\d`, `\s`, `\w`, `\S`, `\b`, `(?<!\d)`, `(?!\d)` and the empty pattern
  digit space word nonspace boundary not_after_digit not_before_digit empty : Regex
  -- one after the other; one or the other
  ◌▷◌ ◌∪◌ : Regex → Regex → Regex
  -- `r*` and `r*?`
  star lazy_star : Regex → Regex
  -- `r{n}` and `r{0,n}`
  times up_to : ℕ → Regex → Regex

-- A position in a text: the character before it, what the pattern has taken, what is left.
pub record Position : Type 0 where
  pub prev : Option Char
  pub taken : String
  pub rest : String

abbrev pub one_char : (Char → Bool) → Position → List Position
one_char ok p = elim p.rest [
  | [] ↦ List.[]
  | c ∷ s ↦
      if ok c
      then List.◌∷◌ (record { prev = some c; taken = push p.taken c; rest = s }) List.[]
      else List.[]
]

abbrev pub only_if : Bool → Position → List Position
only_if b p = if b then List.◌∷◌ p List.[] else List.[]

-- The character that comes next.
abbrev pub next : Position → Option Char
next p = elim p.rest [ [] ↦ none | c ∷ s ↦ some c ]

abbrev pub holds_of : (ℕ → Bool) → Option Char → Bool
holds_of test none = false
holds_of test (some c) = test (code c)

-- Each round of a loop takes at least one character in the patterns of this program, so the
-- characters that are left bound the rounds.
pub star_from : (Position → List Position) → ℕ → Position → List Position
star_from step zero p = List.◌∷◌ p List.[]
star_from step (suc f) p = flat_map (λ q. star_from step f q) (step p) ++ List.◌∷◌ p List.[]

pub lazy_from : (Position → List Position) → ℕ → Position → List Position
lazy_from step zero p = List.◌∷◌ p List.[]
lazy_from step (suc f) p = List.◌∷◌ p (flat_map (λ q. lazy_from step f q) (step p))

unfoldable pub times_from : (Position → List Position) → ℕ → Position → List Position
times_from step zero p = List.◌∷◌ p List.[]
times_from step (suc n) p = flat_map (λ q. times_from step n q) (step p)

module _ (u : Database) (ignore_case : Bool) where
  abbrev accepts : (ℕ → Bool) → Char → Bool
  accepts test c = if ignore_case then any test (variants u (code c)) else test (code c)

  -- Every match from a position, the one that `re` prefers first.
  unfoldable pub run : Regex → Position → List Position
  unfolding star_from lazy_from times_from variants is_digit is_space is_word
  run (Regex.set test) p = one_char (accepts test) p
  run Regex.digit p = one_char (λ c. is_digit u (code c)) p
  run Regex.space p = one_char (λ c. is_space u (code c)) p
  run Regex.word p = one_char (λ c. is_word u (code c)) p
  run Regex.nonspace p = one_char (λ c. not (is_space u (code c))) p
  run Regex.boundary p =
      only_if
        (if holds_of (is_word u) p.prev
          then not (holds_of (is_word u) (next p))
          else holds_of (is_word u) (next p))
        p
  run Regex.not_after_digit p = only_if (not (holds_of (is_digit u) p.prev)) p
  run Regex.not_before_digit p = only_if (not (holds_of (is_digit u) (next p))) p
  run Regex.empty p = List.◌∷◌ p List.[]
  run (Regex.◌▷◌ r s) p = flat_map (λ q. run s q) (run r p)
  run (Regex.◌∪◌ r s) p = run r p ++ run s p
  run (Regex.star r) p = star_from (run r) (chars p.rest) p
  run (Regex.lazy_star r) p = lazy_from (run r) (chars p.rest) p
  run (Regex.times n r) p = times_from (run r) n p
  run (Regex.up_to n r) p = star_from (run r) n p

  -- `pattern.match` at one place.
  unfoldable pub match_at : Regex → Option Char → String → Option Position
  unfolding run
  match_at r before s = elim (run r (record { prev = before; taken = ""; rest = s })) [
    | List.[] ↦ none
    | List.◌∷◌ p ps ↦ some p
  ]

  search_from : Regex → Option Char → String → Bool
  unfolding match_at
  search_from r before [] = elim (match_at r before "") [ none ↦ false | some p ↦ true ]
  search_from r before (c ∷ s) =
      let later = search_from r (some c) s in
      elim (match_at r before (c ∷ s)) [ none ↦ later | some p ↦ true ]

  -- `pattern.search(text)`, as a truth value
  unfoldable pub search : Regex → String → Bool
  unfolding search_from
  search r s = search_from r none s

-- A text cut at the matches that do not overlap, from the left.
pub data Piece : Type 0 where
  keep : Char → Piece
  hit : String → Piece

-- An empty match leaves the character where it is.
abbrev pub piece_of : Option Position → Char → Piece
piece_of none c = Piece.keep c
piece_of (some p) c = elim p.taken [ [] ↦ Piece.keep c | d ∷ s ↦ Piece.hit (d ∷ s) ]

-- How many characters behind the first one a match takes.
abbrev pub behind : Option Position → ℕ
behind none = 0
behind (some p) = chars p.taken - 1

module _ (u : Database) (ignore_case : Bool) (r : Regex) where
  unfoldable pub cut : ℕ → Option Char → String → List Piece
  unfolding match_at
  cut skip before [] = List.[]
  cut (suc k) before (c ∷ s) = cut k (some c) s
  cut zero before (c ∷ s) =
      let m = match_at u ignore_case r before (c ∷ s) in
      List.◌∷◌ (piece_of m c) (cut (behind m) (some c) s)

  -- What `finditer` and `sub` go through.
  unfoldable pub pieces : String → List Piece
  unfolding cut
  pieces s = cut 0 none s

-- Notation for the tables of patterns.
abbrev pub lit : String → Regex
lit [] = Regex.empty
lit (c ∷ []) = Regex.set (λ d. d == code c)
lit (c ∷ s) = Regex.set (λ d. d == code c) ▷ lit s

-- `(a|b|c)`
abbrev pub words : List String → Regex
words List.[] = Regex.empty
words (List.◌∷◌ w List.[]) = lit w
words (List.◌∷◌ w ws) = lit w ∪ words ws

abbrev pub plus : Regex → Regex
plus r = r ▷ Regex.star r

abbrev pub opt : Regex → Regex
opt r = Regex.up_to 1 r

abbrev pub any_char : Regex
any_char = Regex.set (λ c. true)
