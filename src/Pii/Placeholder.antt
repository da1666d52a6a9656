-- ===== src/Pii/Placeholder.antt =====
-- The placeholders of `_shield_business_refs` and their replacement in `_unshield_business_refs`
-- (guardrails/pii.py).
use text.Mathlib.TextLemmas.{cons-append, nil-append, append_assoc}
use Prim.Native.Char
use text.Mathlib.TextEquality.{Char-path}
use mathlib.Core.Path.{ap₂}
use deskfleet_ticketwarden.Base.{
  not, inr, inl, Bool-cases, ◌<◌, ◌-◌, ==_iff, ◌&&◌, ℕ, suc, Char, code, String, ◌<>◌, ◌≡◌, refl,
  ap, sym, ◌∙◌, Bool, true, false, ◌==◌, show, arith, chars, replace, replace_from, is_prefix,
}
use deskfleet_ticketwarden.Base.{Each, Each-append, show-IsDigit, show_inj, IsDigit}
use deskfleet_ticketwarden.Pii.{placeholder, nul}

abbrev pub is_nul : Char → Bool
is_nul c = code c == 0

-- A text without the character that opens and closes a placeholder.
abbrev pub IsPlain : String → Type 0
IsPlain = Each (λ c. is_nul c ≡ false)

∧_split : (a b : Bool) → (a && b) ≡ true → (a ≡ true) × (b ≡ true)
∧_split a b h = ground (arith, h)

-- `"\x00" not in text`
abbrev pub has_no_nul : String → Bool
has_no_nul String.[] = true
has_no_nul (String.◌∷◌ c s) = not (is_nul c) && has_no_nul s

pub has_no_nul-IsPlain : (s : String) → has_no_nul s ≡ true → IsPlain s
has_no_nul-IsPlain String.[] h = tt
has_no_nul-IsPlain (String.◌∷◌ c s) h =
    let (first, later) = ∧_split (not (is_nul c)) (has_no_nul s) h in
    (ground (arith, first), has_no_nul-IsPlain s later)

-- A text that does not go on as a placeholder does.
abbrev pub IsApart : String → Type 0
IsApart String.[] = Unit
IsApart (String.◌∷◌ c s) = (code c == b'R') ≡ false

-- What stands between the two.
abbrev inside : ℕ → String
inside index = "REF" <> show index

Each-map : (P Q : Char → Type 0) → ((c : Char) → P c → Q c) → (s : String) → Each P s → Each Q s
Each-map P Q f String.[] h = tt
Each-map P Q f (String.◌∷◌ c s) h = (f c h.0, Each-map P Q f s h.1)

inside-IsPlain : (index : ℕ) → IsPlain (inside index)
inside-IsPlain index =
    Each-append _ "REF" (show index) (refl, (refl, (refl, tt)))
      (Each-map IsDigit _ (λ c d. ground (arith, d)) (show index) (show-IsDigit index))

quote : (s : String) → nul <> s ≡ String.◌∷◌ Char.nul s
quote s = cons-append Char.nul "" s ∙ ap (String.◌∷◌ Char.nul) (nil-append s)

pub placeholder-cons :
    (index : ℕ) (s : String)
    → placeholder index <> s ≡ String.◌∷◌ Char.nul (inside index <> String.◌∷◌ Char.nul s)
placeholder-cons index s =
    ap (λ t. t <> s) (quote _)
    ∙ cons-append Char.nul _ s
    ∙ ap (String.◌∷◌ Char.nul) (
        ap (λ t. t <> s) (sym (append_assoc "REF" (show index) nul))
        ∙ append_assoc (inside index) nul s
        ∙ ap (λ t. inside index <> t) (quote s))

is_prefix-inside :
    (a b s : String)
    → IsPlain a
    → IsPlain b
    → is_prefix (a <> nul) (b <> String.◌∷◌ Char.nul s) ≡ true
    → a ≡ b
is_prefix-inside String.[] String.[] s ha hb h = refl
is_prefix-inside String.[] (String.◌∷◌ d b) s ha hb h =
    let h' : (0 == code d && true) ≡ true = rw cons-append at h in absurd (ground (arith, h', hb.0))
is_prefix-inside (String.◌∷◌ c a) String.[] s ha hb h =
    let h' : (code c == 0 && is_prefix (a <> nul) s) ≡ true = rw (cons-append, nil-append) at h in
    absurd (ground (arith, h', ha.0))
is_prefix-inside (String.◌∷◌ c a) (String.◌∷◌ d b) s ha hb h =
    let h' : (code c == code d && is_prefix (a <> nul) (b <> String.◌∷◌ Char.nul s)) ≡ true =
      rw (cons-append, cons-append) at h in
    let (first, later) = ∧_split _ _ h' in
    ap₂ String.◌∷◌ (Char-path c d ((==_iff _ _).0 first)) (is_prefix-inside a b s ha.1 hb.1 later)

-- A placeholder is found where it stands, and not where another one does.
is_prefix_self : (p s : String) → is_prefix p (p <> s) ≡ true
is_prefix_self String.[] s = refl
is_prefix_self (String.◌∷◌ c p) s = rw cons-append (ground (arith, is_prefix_self p s))

opened : (index : ℕ) → placeholder index ≡ String.◌∷◌ Char.nul (inside index <> nul)
opened index = quote _ ∙ ap (String.◌∷◌ Char.nul) (sym (append_assoc "REF" (show index) nul))

-- A text from its fourth character on.
abbrev tail : String → String
tail String.[] = ""
tail (String.◌∷◌ c s) = s

inside_inj : (i j : ℕ) → inside i ≡ inside j → i ≡ j
inside_inj i j same =
    let behind_REF : (s : String) → tail (tail (tail ("REF" <> s))) ≡ s =
      λ s. rw (cons-append, cons-append, cons-append) (nil-append s) in
    show_inj i j
      (sym (behind_REF (show i)) ∙ ap (λ s. tail (tail (tail s))) same ∙ behind_REF (show j))

-- `str.replace` of a text that opens with NUL and `key`.
module _ (key new : String) where
  abbrev back : ℕ → String → String
  back = replace_from (String.◌∷◌ Char.nul key) new

  back-skip : (a s : String) → back (chars a) (a <> s) ≡ back 0 s
  unfolding replace_from
  back-skip String.[] s = rw nil-append refl
  back-skip (String.◌∷◌ c a) s = rw cons-append (back-skip a s)

  back-plain : (a s : String) → IsPlain a → back 0 (a <> s) ≡ a <> back 0 s
  unfolding replace_from
  back-plain String.[] s h = rw (nil-append, nil-append) refl
  back-plain (String.◌∷◌ c a) s h =
      let miss : (0 == code c && is_prefix key (a <> s)) ≡ false = ground (arith, h.0) in
      rw (cons-append, cons-append, miss) (ap (String.◌∷◌ c) (back-plain a s h.1))

  back-own : (s : String) → back 0 (String.◌∷◌ Char.nul (key <> s)) ≡ new <> back 0 s
  unfolding replace_from
  back-own s =
      let one_less : suc (chars key) - 1 ≡ chars key = omega arith in
      rw (is_prefix_self key s, one_less) (ap (λ t. new <> t) (back-skip key s))

  back-foreign :
      (a s : String)
      → IsPlain a
      → is_prefix key (a <> String.◌∷◌ Char.nul s) ≡ false
      → is_prefix key s ≡ false
      → back 0 (String.◌∷◌ Char.nul (a <> String.◌∷◌ Char.nul s))
        ≡ String.◌∷◌ Char.nul (a <> String.◌∷◌ Char.nul (back 0 s))
  unfolding replace_from
  back-foreign a s plain differs apart =
      let later : back 0 (String.◌∷◌ Char.nul s) ≡ String.◌∷◌ Char.nul (back 0 s) = rw apart refl in
      rw differs (
        ap (String.◌∷◌ Char.nul)
          (back-plain a (String.◌∷◌ Char.nul s) plain ∙ ap (λ t. a <> t) later))

key_of : ℕ → String
key_of index = inside index <> nul

key_of-apart : (j : ℕ) (s : String) → IsApart s → is_prefix (key_of j) s ≡ false
unfolding key_of
key_of-apart j String.[] h = rw (key_of, cons-append, cons-append) refl
key_of-apart j (String.◌∷◌ c s) h = rw (key_of, cons-append, cons-append) (ground (arith, h))

key_of-other :
    (i j : ℕ) (s : String)
    → j < i
    → is_prefix (key_of j) (inside i <> String.◌∷◌ Char.nul s) ≡ false
unfolding key_of
key_of-other i j s lt =
    elim (Bool-cases (is_prefix (key_of j) (inside i <> String.◌∷◌ Char.nul s))) [
      | inl found ↦
          let same : j ≡ i =
            inside_inj j i (is_prefix-inside _ _ s (inside-IsPlain j) (inside-IsPlain i) found) in
          absurd (omega (arith, same, lt))
      | inr other ↦ other
    ]

replace-key : (j : ℕ) (new s : String) → replace (placeholder j) new s ≡ back (key_of j) new 0 s
unfolding replace key_of
replace-key j new s = ap (λ old. replace_from old new 0 s) (opened j)

-- What a replacement does to a text without NUL, to its own placeholder, and to one with a later
-- number.
pub replace-plain :
    (j : ℕ) (new a s : String)
    → IsPlain a
    → replace (placeholder j) new (a <> s) ≡ a <> replace (placeholder j) new s
replace-plain j new a s h =
    replace-key j new (a <> s)
    ∙ back-plain (key_of j) new a s h
    ∙ ap (λ t. a <> t) (sym (replace-key j new s))

pub replace-nil : (j : ℕ) (new : String) → replace (placeholder j) new "" ≡ ""
unfolding replace replace_from
replace-nil j new = refl

-- A character in front.
pub cons_lem : (c : Char) (s : String) → String.◌∷◌ c "" <> s ≡ String.◌∷◌ c s
cons_lem c s = cons-append c "" s ∙ ap (String.◌∷◌ c) (nil-append s)

pub replace-cons :
    (j : ℕ) (new : String) (c : Char) (s : String)
    → is_nul c ≡ false
    → replace (placeholder j) new (String.◌∷◌ c s) ≡ String.◌∷◌ c (replace (placeholder j) new s)
replace-cons j new c s h =
    ap (replace (placeholder j) new) (sym (cons_lem c s))
    ∙ replace-plain j new (String.◌∷◌ c "") s (h, tt)
    ∙ cons_lem c _

pub replace-own :
    (j : ℕ) (new s : String)
    → replace (placeholder j) new (placeholder j <> s) ≡ new <> replace (placeholder j) new s
unfolding key_of
replace-own j new s =
    replace-key j new (placeholder j <> s)
    ∙ ap (back (key_of j) new 0) (ap (λ t. t <> s) (opened j) ∙ cons-append Char.nul (key_of j) s)
    ∙ back-own (key_of j) new s
    ∙ ap (λ t. new <> t) (sym (replace-key j new s))

pub replace-later :
    (i j : ℕ) (new s : String)
    → j < i
    → IsApart s
    → replace (placeholder j) new (placeholder i <> s)
      ≡ placeholder i <> replace (placeholder j) new s
replace-later i j new s lt apart =
    replace-key j new (placeholder i <> s)
    ∙ ap (back (key_of j) new 0) (placeholder-cons i s)
    ∙ back-foreign (key_of j) new (inside i) s (inside-IsPlain i) (key_of-other i j s lt)
        (key_of-apart j s apart)
    ∙ sym (placeholder-cons i (back (key_of j) new 0 s))
    ∙ ap (λ t. placeholder i <> t) (sym (replace-key j new s))
