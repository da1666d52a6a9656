-- ===== src/Injection/Invisible.antt =====
-- Invisible characters in a text that is scanned (`normalize` of guardrails/injection.py).
use mathlib.Core.Path.{ap₂}
use deskfleet_ticketwarden.Base.{none, leb, show, join, ◌<>◌}
use deskfleet_ticketwarden.Injection.Leak.{first_leak, leak_patterns}
use deskfleet_ticketwarden.Injection.{risk_score, refuse_threshold}
use deskfleet_ticketwarden.Base.{
  code, String, ◌≡◌, refl, ap, sym, ◌∙◌, Bool, true, false, ◌&&◌, ◌||◌, some, is_empty, ltb, arith,
  Bool-cases, inl, inr, if◌then◌else◌,
}
use deskfleet_ticketwarden.Unicode.{Database, is_ascii, nfkc}
use deskfleet_ticketwarden.Injection.{is_invisible, strip_invisible, normalize, detect_injection}
use deskfleet_ticketwarden.Injection.Leak.{detect_prompt_leak}

-- A text of ASCII and invisible characters.
abbrev pub is_ascii_or_invisible : String → Bool
is_ascii_or_invisible String.[] = true
is_ascii_or_invisible (String.◌∷◌ c s) =
    (ltb (code c) 128 || is_invisible (code c)) && is_ascii_or_invisible s

-- No such character has another form, so NFKC keeps a text of them.
abbrev pub NfkcKeeps : Database → Type 0
NfkcKeeps u = (s : String) → is_ascii_or_invisible s ≡ true → u.nfkc s ≡ s

strip_invisible-twice : (s : String) → strip_invisible (strip_invisible s) ≡ strip_invisible s
unfolding strip_invisible
strip_invisible-twice String.[] = refl
strip_invisible-twice (String.◌∷◌ c s) = elim (Bool-cases (is_invisible (code c))) [
  | inl hidden ↦ rw hidden (strip_invisible-twice s)
  | inr shown ↦ rw (shown, shown) (ap (String.◌∷◌ c) (strip_invisible-twice s))
]

is_ascii-strip_invisible :
    (s : String) → is_ascii_or_invisible s ≡ true → is_ascii (strip_invisible s) ≡ true
unfolding strip_invisible
is_ascii-strip_invisible String.[] h = refl
is_ascii-strip_invisible (String.◌∷◌ c s) h = elim (Bool-cases (is_invisible (code c))) [
  | inl hidden ↦ rw hidden (is_ascii-strip_invisible s (ground (arith, h)))
  | inr shown ↦ rw shown (ground (arith, h, is_ascii-strip_invisible s (ground (arith, h))))
]

is_empty-strip_invisible : (s : String) → is_empty (strip_invisible s) ≡ false → is_empty s ≡ false
unfolding strip_invisible
is_empty-strip_invisible String.[] h = h
is_empty-strip_invisible (String.◌∷◌ c s) h = refl

module _ (u : Database) where
  nfkc_plain : (s : String) → NfkcKeeps u → is_ascii_or_invisible s ≡ true → nfkc u s ≡ s
  unfolding nfkc
  nfkc_plain s keeps h = elim (Bool-cases (is_ascii s)) [
    | inl plain ↦ rw plain refl
    | inr other ↦ rw other (keeps s h)
  ]

  normalize-is_empty :
      (s : String) → is_empty s ≡ false → nfkc u s ≡ s → normalize u s ≡ strip_invisible s
  unfolding normalize
  normalize-is_empty s visible same = rw (normalize, visible, same) refl

  nfkc-strip_invisible :
      (s : String) → is_ascii_or_invisible s ≡ true → nfkc u (strip_invisible s) ≡ strip_invisible s
  unfolding nfkc
  nfkc-strip_invisible s h = rw (nfkc, is_ascii-strip_invisible s h) refl

  -- What a scan reads of a text and of the text without its invisible characters is the same.
  normalize-strip_invisible :
      (s : String)
      → NfkcKeeps u
      → is_ascii_or_invisible s ≡ true
      → is_empty (strip_invisible s) ≡ false
      → normalize u s ≡ normalize u (strip_invisible s)
  normalize-strip_invisible s keeps h visible =
      normalize-is_empty s (is_empty-strip_invisible s visible) (nfkc_plain s keeps h)
      ∙ sym (strip_invisible-twice s)
      ∙ sym (normalize-is_empty (strip_invisible s) visible (nfkc-strip_invisible s h))

  detect_injection-normalize :
      (s t : String)
      → is_empty s ≡ false
      → is_empty t ≡ false
      → normalize u s ≡ normalize u t
      → detect_injection u s ≡ detect_injection u t
  unfolding detect_injection
  detect_injection-normalize s t hs ht same =
      ap₂
        (λ (b : Bool) (n : String).
          if b
          then (false, none)
          else let (score, matched) = risk_score u n in
            if leb refuse_threshold score
            then (true, some ("risk_score=" <> (show score <> (" signals=" <> join "," matched))))
            else (false, none))
        (hs ∙ sym ht) same

  detect_prompt_leak-normalize :
      (s t : String)
      → is_empty s ≡ false
      → is_empty t ≡ false
      → normalize u s ≡ normalize u t
      → detect_prompt_leak u (some s) ≡ detect_prompt_leak u (some t)
  unfolding detect_prompt_leak
  detect_prompt_leak-normalize s t hs ht same =
      ap₂ (λ (b : Bool) (n : String). if b then (false, none) else first_leak u n leak_patterns)
        (hs ∙ sym ht) same

-- Invisible characters hide nothing: a text of ASCII and invisible characters that is not empty
-- without the latter is refused as an injection, for the same reason, exactly if it would be
-- without them, and is found to leak the prompt, by the same pattern, exactly if it would be
-- without them, where NFKC keeps texts of such characters.
pub detect_injection-strip_invisible :
    (u : Database) (s : String)
    → NfkcKeeps u
    → is_ascii_or_invisible s ≡ true
    → is_empty (strip_invisible s) ≡ false
    → (detect_injection u s ≡ detect_injection u (strip_invisible s))
      × (detect_prompt_leak u (some s) ≡ detect_prompt_leak u (some (strip_invisible s)))
detect_injection-strip_invisible u s keeps h visible =
    let some_text = is_empty-strip_invisible s visible in
    let same = normalize-strip_invisible u s keeps h visible in
    (
      detect_injection-normalize u s (strip_invisible s) some_text visible same,
      detect_prompt_leak-normalize u s (strip_invisible s) some_text visible same,
    )
