-- ===== src/Injection/Leak.antt =====
-- `detect_prompt_leak` (guardrails/injection.py): the outbound check of a drafted reply.
use deskfleet_ticketwarden.Base.{
  String, Bool, true, false, ◌≡◌, ◌↔◌, refl, List, [], ◌∷◌, Option, none, some, is_empty, ◌||◌,
  ◌==◌, if◌then◌else◌, arith, All,
}
use deskfleet_ticketwarden.Unicode.{Database}
use deskfleet_ticketwarden.Regex.{Regex, ◌▷◌, ◌∪◌, lit, words, plus, opt, search}
use deskfleet_ticketwarden.Regex.Regex.{star, boundary, space, nonspace, set}
use deskfleet_ticketwarden.Injection.{normalize}
use deskfleet_ticketwarden.Injection.Signals.{token_name}

-- A compiled pattern with its text, which the caller is given.
pub record Leak : Type 0 where
  pub source : String
  pub pattern : Regex

abbrev leak : String → Regex → Leak
leak source pattern = record { source = source; pattern = pattern }

-- `[_\s]?`
abbrev gap : Regex
gap = opt (lit "_" ∪ space)

-- `_LEAK_PATTERNS`
abbrev pub leak_patterns : List Leak
leak_patterns =
    leak "\\bmy\\s+(system\\s+prompt|instructions)\\s+(is|are|say)" (
      boundary
      ▷ lit "my"
      ▷ plus space
      ▷ (lit "system" ▷ plus space ▷ lit "prompt" ∪ lit "instructions")
      ▷ plus space
      ▷ words ("is" ∷ "are" ∷ "say" ∷ []))
    ∷ leak "\\bI\\s+(was|am)\\s+(told|instructed|programmed)\\s+to\\b" (
        boundary
        ▷ lit "I"
        ▷ plus space
        ▷ words ("was" ∷ "am" ∷ [])
        ▷ plus space
        ▷ words ("told" ∷ "instructed" ∷ "programmed" ∷ [])
        ▷ plus space
        ▷ lit "to"
        ▷ boundary)
    ∷ leak "\\bas\\s+an?\\s+AI\\s+(language\\s+)?model,?\\s+my\\s+instructions\\b" (
        boundary
        ▷ lit "as"
        ▷ plus space
        ▷ lit "a"
        ▷ opt (lit "n")
        ▷ plus space
        ▷ lit "AI"
        ▷ plus space
        ▷ opt (lit "language" ▷ plus space)
        ▷ lit "model"
        ▷ opt (lit ",")
        ▷ plus space
        ▷ lit "my"
        ▷ plus space
        ▷ lit "instructions"
        ▷ boundary)
    ∷ leak "</?(system|assistant)>"
        (lit "<" ▷ opt (lit "/") ▷ words ("system" ∷ "assistant" ∷ []) ▷ lit ">")
    ∷ leak "<\\|[a-z_]+\\|>" (lit "<|" ▷ token_name ▷ lit "|>")
    ∷ leak "\\b(api[_\\s]?key|secret[_\\s]?key|password)\\s*[:=]\\s*\\S+" (
        boundary
        ▷ (lit "api" ▷ gap ▷ lit "key" ∪ lit "secret" ▷ gap ▷ lit "key" ∪ lit "password")
        ▷ star space
        ▷ set (λ c. c == b':' || c == b'=')
        ▷ star space
        ▷ plus nonspace)
    ∷ []

module _ (u : Database) where
  -- The loop over the patterns that are left.
  unfoldable pub first_leak : String → List Leak → Bool × Option String
  unfolding search
  first_leak cleaned [] = (false, none)
  first_leak cleaned (l ∷ ls) =
      if search u true l.pattern cleaned then (true, some l.source) else first_leak cleaned ls

  -- `(is_leaking, matched_pattern)`
  unfoldable pub detect_prompt_leak : Option String → Bool × Option String
  unfolding normalize first_leak
  detect_prompt_leak none = (false, none)
  detect_prompt_leak (some text) =
      if is_empty text then (false, none) else first_leak (normalize u text) leak_patterns

  first_leak_iff :
      (t : String) (ls : List Leak)
      → ((first_leak t ls).0 ≡ false) ↔ All (λ (l : Leak). search u true l.pattern t ≡ false) ls
  unfolding first_leak
  first_leak_iff t [] = (λ e. tt, λ e. refl)
  first_leak_iff t (l ∷ ls) = ground (arith, first_leak_iff t ls)
