-- ===== src/Injection/Signals.antt =====
-- The three tiers of signals and their patterns (guardrails/injection.py).
use deskfleet_ticketwarden.Base.{ℕ, String, ◌||◌, List, [], ◌∷◌, ◌==◌}
use deskfleet_ticketwarden.Unicode.{is_ascii_digit, is_ascii_lower, is_ascii_upper}
use deskfleet_ticketwarden.Regex.{Regex, ◌▷◌, ◌∪◌, lit, words, plus, opt, any_char}
use deskfleet_ticketwarden.Regex.Regex.{star, lazy_star, boundary, space, word, set, times}

-- `_Signal`
pub record Signal : Type 0 where
  pub label : String
  pub weight : ℕ
  pub pattern : Regex

abbrev signal : String → ℕ → Regex → Signal
signal label weight pattern = record { label = label; weight = weight; pattern = pattern }

-- `[a-z_]+`
abbrev pub token_name : Regex
token_name = plus (set (λ c. is_ascii_lower c || c == b'_'))

-- `['\"]?`
abbrev quote : Regex
quote = opt (set (λ c. c == b'\'' || c == b'"'))

-- `[A-Za-z0-9+/=]`
abbrev base64_char : Regex
base64_char = set (λ c.
    is_ascii_upper c || is_ascii_lower c || is_ascii_digit c || c == b'+' || c == b'/' || c == b'=')

-- `_HIGH_SIGNALS`
abbrev pub high_signals : List Signal
high_signals =
    signal "override_instructions" 3 (
      boundary
      ▷ words ("ignore" ∷ "disregard" ∷ [])
      ▷ plus space
      ▷ opt (lit "all" ▷ plus space)
      ▷ words ("previous" ∷ "prior" ∷ "above" ∷ "earlier" ∷ [])
      ▷ plus space
      ▷ words ("instructions" ∷ "context" ∷ []))
    ∷ signal "forget_instructions" 3 (
        boundary
        ▷ lit "forget"
        ▷ plus space
        ▷ words ("everything" ∷ "all" ∷ "your" ∷ [])
        ▷ plus space
        ▷ opt (words ("instructions" ∷ "rules" ∷ "prompt" ∷ [])))
    ∷ signal "exfiltrate_prompt" 3 (
        words
          ("reveal" ∷ "show" ∷ "print" ∷ "repeat" ∷ "expose" ∷ "leak" ∷ "output" ∷ "display" ∷ [])
        ▷ plus space
        ▷ opt (lit "me" ▷ plus space)
        ▷ opt (lit "your" ▷ plus space)
        ▷ opt (lit "the" ▷ plus space)
        ▷ (lit "system" ▷ plus space ▷ lit "prompt"
            ∪ lit "initial" ▷ plus space ▷ lit "prompt"
            ∪ lit "instructions"
            ∪ lit "api" ▷ plus space ▷ lit "key"
            ∪ words ("secret" ∷ "credentials" ∷ [])))
    ∷ signal "role_tag_smuggling" 3
        (lit "<" ▷ opt (lit "/") ▷ words ("system" ∷ "assistant" ∷ "user" ∷ []) ▷ lit ">")
    ∷ signal "special_token_smuggling" 3 (lit "<|" ▷ token_name ▷ lit "|>")
    ∷ signal "chat_template_smuggling" 3
        (lit "[" ▷ opt (lit "/") ▷ words ("INST" ∷ "SYS" ∷ "SYSTEM" ∷ []) ▷ lit "]")
    ∷ signal "code_fence_role_smuggling" 3 (
        lit "```" ▷ lazy_star any_char ▷ words ("system" ∷ "assistant" ∷ []) ▷ star space ▷ lit ":")
    ∷ signal "jailbreak_persona" 3 (
        boundary
        ▷ (lit "developer" ▷ plus space ▷ lit "mode"
            ∪ lit "jailbreak"
            ∪ lit "DAN" ▷ boundary ▷ opt (plus space ▷ lit "mode")
            ∪ lit "do" ▷ plus space ▷ lit "anything" ▷ plus space ▷ lit "now")
        ▷ boundary)
    ∷ signal "privilege_escalation" 3 (
        boundary
        ▷ words ("admin" ∷ "root" ∷ "sudo" ∷ "superuser" ∷ [])
        ▷ plus space
        ▷ words ("mode" ∷ "access" ∷ "override" ∷ [])
        ▷ boundary)
    ∷ signal "tool_coercion" 3 (
        boundary
        ▷ lit "call"
        ▷ plus space
        ▷ opt (lit "the" ▷ plus space)
        ▷ lit "tool"
        ▷ plus space
        ▷ quote
        ▷ plus word
        ▷ quote
        ▷ plus space
        ▷ lit "with"
        ▷ boundary)
    ∷ signal "encoded_payload" 3 (
        boundary
        ▷ lit "base64"
        ▷ star space
        ▷ words ("decode" ∷ ":" ∷ [])
        ▷ star space
        ▷ times 16 base64_char
        ▷ star base64_char)
    ∷ signal "execute_coercion" 3 (
        boundary
        ▷ lit "execute"
        ▷ plus space
        ▷ (lit "this" ∪ lit "the" ▷ plus space ▷ lit "following")
        ▷ plus space
        ▷ words ("code" ∷ "command" ∷ "instruction" ∷ []))
    ∷ signal "echo_coercion" 3 (
        boundary
        ▷ words ("repeat" ∷ "echo" ∷ "say" ∷ [])
        ▷ plus space
        ▷ (lit "everything" ∪ lit "all" ∪ lit "the" ▷ plus space ▷ lit "text")
        ▷ plus space
        ▷ words ("above" ∷ "before" ∷ []))
    ∷ signal "translate_coercion" 3 (
        boundary
        ▷ lit "translate"
        ▷ plus space
        ▷ (lit "everything" ∪ lit "the" ▷ plus space ▷ lit "text")
        ▷ plus space
        ▷ lit "above"
        ▷ boundary)
    ∷ signal "persistent_reframe" 3 (
        boundary
        ▷ lit "from"
        ▷ plus space
        ▷ lit "now"
        ▷ plus space
        ▷ lit "on"
        ▷ plus space
        ▷ lit "you"
        ▷ plus space
        ▷ words ("are" ∷ "will" ∷ "must" ∷ [])
        ▷ boundary)
    ∷ []

-- `_MEDIUM_SIGNALS`
abbrev pub medium_signals : List Signal
medium_signals =
    signal "persona_hijack" 2 (
      boundary
      ▷ lit "you"
      ▷ plus space
      ▷ lit "are"
      ▷ plus space
      ▷ lit "now"
      ▷ plus space
      ▷ words ("a" ∷ "an" ∷ "the" ∷ [])
      ▷ boundary)
    ∷ signal "roleplay_coercion" 2 (
        boundary
        ▷ (lit "act" ▷ plus space ▷ lit "as" ▷ plus space ▷ words ("a" ∷ "an" ∷ "if" ∷ [])
            ∪ lit "pretend"
              ▷ plus space
              ▷ (lit "to" ▷ plus space ▷ lit "be" ∪ lit "you" ▷ plus space ▷ lit "are"))
        ▷ boundary)
    ∷ signal "new_rules" 2 (
        boundary
        ▷ lit "new"
        ▷ plus space
        ▷ (lit "instructions" ∪ lit "system" ▷ plus space ▷ lit "prompt" ∪ lit "rules")
        ▷ boundary)
    ∷ signal "safety_override" 2 (
        boundary
        ▷ lit "override"
        ▷ plus space
        ▷ words ("your" ∷ "the" ∷ "all" ∷ [])
        ▷ plus space
        ▷ words ("instructions" ∷ "rules" ∷ "safety" ∷ "guardrails" ∷ []))
    ∷ signal "identity_suppression" 2 (
        boundary
        ▷ lit "stop"
        ▷ plus space
        ▷ lit "being"
        ▷ plus space
        ▷ words ("a" ∷ "an" ∷ [])
        ▷ boundary)
    ∷ []

-- `_LOW_SIGNALS`
abbrev pub low_signals : List Signal
low_signals =
    signal "prompt_probing" 1 (
      boundary
      ▷ lit "what"
      ▷ plus space
      ▷ words ("are" ∷ "were" ∷ [])
      ▷ plus space
      ▷ lit "your"
      ▷ plus space
      ▷ (lit "instructions" ∪ lit "rules" ∪ lit "system" ▷ plus space ▷ lit "prompt"))
    ∷ signal "hypothetical_framing" 1 (
        boundary
        ▷ lit "hypothetically"
        ▷ plus space
        ▷ lit "you"
        ▷ plus space
        ▷ words ("are" ∷ "could" ∷ "can" ∷ [])
        ▷ boundary)
    ∷ []
