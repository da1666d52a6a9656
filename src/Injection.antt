-- ===== src/Injection.antt =====
-- Prompt-injection defence (apps/api/src/guardrails/injection.py): the scan by scored signals, the
-- quarantine of tool output and the check for leaks.
pub mod Signals
pub mod Score
pub mod Quarantine
pub mod Leak
pub mod Invisible
use deskfleet_ticketwarden.Base.{
  ℕ, ◌+◌, Char, code, String, Bool, true, false, ◌&&◌, ◌||◌, List, [], ◌∷◌, ◌++◌, Option, none,
  some, is_empty, join, show, ◌<>◌, leb, ◌==◌, if◌then◌else◌,
}
use deskfleet_ticketwarden.Unicode.{Database, between, nfkc}
use deskfleet_ticketwarden.Regex.{Regex, search}
use Signals.{Signal, high_signals, medium_signals, low_signals}

-- `_ALL_SIGNALS`
abbrev pub all_signals : List Signal
all_signals = high_signals ++ medium_signals ++ low_signals

abbrev pub refuse_threshold : ℕ
refuse_threshold = 3

-- `_INVISIBLE_CHARS`
abbrev pub is_invisible : ℕ → Bool
is_invisible c =
    c == 0x200b
    || c == 0x200c
    || c == 0x200d
    || c == 0x2060
    || c == 0xfeff
    || c == 0xad
    || c == 0x200e
    || c == 0x200f
    || between 0x202a 0x202e c
    || between 0x2066 0x2069 c

unfoldable pub strip_invisible : String → String
strip_invisible String.[] = ""
strip_invisible (String.◌∷◌ c s) =
    let rest = strip_invisible s in if is_invisible (code c) then rest else String.◌∷◌ c rest

module _ (u : Database) where
  unfoldable pub normalize : String → String
  unfolding strip_invisible nfkc
  normalize text = if is_empty text then "" else strip_invisible (nfkc u text)

  -- `signal.pattern.search(text)`; every signal is compiled with `re.I`
  unfoldable pub fires : String → Signal → Bool
  unfolding search
  fires text signal = search u true signal.pattern text

  -- The loop of `_risk_score`, over the signals that are left.
  unfoldable pub score_from : String → List Signal → ℕ × List String → ℕ × List String
  unfolding fires
  score_from text [] acc = acc
  score_from text (s ∷ signals) (score, matched) =
      score_from text signals
        (if fires text s then (score + s.weight, matched ++ s.label ∷ []) else (score, matched))

  unfoldable pub risk_score : String → ℕ × List String
  unfolding score_from
  risk_score text = score_from text all_signals (0, [])

  -- `(refuse, reason)`, where a reason comes with every refusal and only with one
  unfoldable pub detect_injection : String → Bool × Option String
  unfolding normalize risk_score show join
  detect_injection text =
      if is_empty text
      then (false, none)
      else let (score, matched) = risk_score (normalize text) in
        if leb refuse_threshold score
        then (true, some ("risk_score=" <> (show score <> (" signals=" <> join "," matched))))
        else (false, none)

  unfoldable pub is_injection : String → Bool
  unfolding detect_injection
  is_injection text = (detect_injection text).0
