-- ===== src/Injection/Score.antt =====
-- What the scored scan of guardrails/injection.py decides: the sum over every signal that fires, and the tiers that cross the
-- threshold.
use mathlib.Core.List.{append_assoc, append-nil}
use deskfleet_ticketwarden.Base.{
  Bool, ap, ◌∙◌, Option, true, false, refl, count-le-length, ◌⊎◌, ◌≤◌, ◌↔◌, inl, inr, ℕ, ◌+◌, ◌*◌,
  String, ◌≡◌, List, [], ◌∷◌, ◌++◌, map, none, some, filter, count, All, is_empty, join, show, ◌<>◌,
  leb, if◌then◌else◌, arith, Bool-cases,
}
use deskfleet_ticketwarden.Unicode.{Database}
use deskfleet_ticketwarden.Injection.{
  is_injection, normalize, fires, score_from, risk_score, detect_injection, all_signals,
  refuse_threshold,
}
use deskfleet_ticketwarden.Injection.Signals.{Signal, high_signals, medium_signals, low_signals}

abbrev pub weigh : List Signal → ℕ
weigh [] = 0
weigh (s ∷ signals) = s.weight + weigh signals

abbrev pub labels : List Signal → List String
labels = map (λ (s : Signal). s.label)

-- The signals that fire, in the order of the tables.
abbrev pub firing : Database → String → List Signal → List Signal
firing u t = filter (fires u t)

score_from_lem :
    (u : Database) (t : String) (signals : List Signal) (n : ℕ) (ls : List String)
    → score_from u t signals (n, ls)
      ≡ (n + weigh (firing u t signals), ls ++ labels (firing u t signals))
unfolding score_from
score_from_lem u t [] n ls = rw append-nil (ground arith)
score_from_lem u t (s ∷ signals) n ls = elim (Bool-cases (fires u t s)) [
  | inl hit ↦
      rw (hit, score_from_lem u t signals (n + s.weight) (ls ++ s.label ∷ []), append_assoc)
        (ground arith)
  | inr miss ↦ rw (miss, score_from_lem u t signals n ls)
]

pub risk_score_lem :
    (u : Database) (t : String)
    → risk_score u t ≡ (weigh (firing u t all_signals), labels (firing u t all_signals))
unfolding risk_score
risk_score_lem u t = rw (score_from_lem u t all_signals 0 []) (ground arith)

-- `detect_injection` against its description: the weights of all signals that fire on the
-- normalized text are summed, the threshold decides, and the reason names these signals in order.
pub detect_injection_lem :
    (u : Database) (text : String)
    → let fired = firing u (normalize u text) all_signals in
      detect_injection u text ≡ (
        if is_empty text
        then (false, none)
        else if leb refuse_threshold (weigh fired)
        then (
          true,
          some ("risk_score=" <> (show (weigh fired) <> (" signals=" <> join "," (labels fired)))),
        )
        else (false, none))
unfolding detect_injection
detect_injection_lem u text = rw (risk_score_lem u (normalize u text))

weigh-tier :
    (u : Database) (t : String) (w : ℕ) (signals : List Signal)
    → All (λ (s : Signal). s.weight ≡ w) signals
    → weigh (firing u t signals) ≡ w * count (fires u t) signals
weigh-tier u t w [] h = omega arith
weigh-tier u t w (s ∷ signals) h = elim (Bool-cases (fires u t s)) [
  | inl hit ↦ rw hit (omega (arith, weigh-tier u t w signals h.1, h.0))
  | inr miss ↦ rw miss (weigh-tier u t w signals h.1)
]

weigh-append :
    (u : Database) (t : String) (xs ys : List Signal)
    → weigh (firing u t (xs ++ ys)) ≡ weigh (firing u t xs) + weigh (firing u t ys)
weigh-append u t [] ys = omega arith
weigh-append u t (s ∷ xs) ys = elim (Bool-cases (fires u t s)) [
  | inl hit ↦ rw hit (omega (arith, weigh-append u t xs ys))
  | inr miss ↦ rw miss (weigh-append u t xs ys)
]

-- How many signals of a tier fire on the text as it is scanned.
abbrev pub hits : Database → String → List Signal → ℕ
hits u text signals = count (fires u (normalize u text)) signals

weigh_all :
    (u : Database) (text : String)
    → weigh (firing u (normalize u text) all_signals)
      ≡ 3 * hits u text high_signals + 2 * hits u text medium_signals + hits u text low_signals
weigh_all u text =
    let t = normalize u text in
    let high = weigh-tier u t 3 high_signals (ground arith) in
    let medium = weigh-tier u t 2 medium_signals (ground arith) in
    let low = weigh-tier u t 1 low_signals (ground arith) in
    omega (
      arith,
      high,
      medium,
      low,
      weigh-append u t high_signals (medium_signals ++ low_signals),
      weigh-append u t medium_signals low_signals,
    )

-- Which numbers of hits in the three tiers refuse a text: one HIGH, or two MEDIUM, or one MEDIUM
-- with one LOW.
abbrev pub Crosses : ℕ → ℕ → ℕ → Type 0
Crosses h m l = (1 ≤ h) ⊎ ((2 ≤ m) ⊎ ((1 ≤ m) × (1 ≤ l)))

Crosses-iff : (h m l : ℕ) → l ≤ 2 → (leb 3 (3 * h + 2 * m + l) ≡ true) ↔ Crosses h m l
Crosses-iff h m l few = grind arith

pub is_injection-first :
    (u : Database) (text : String) → is_injection u text ≡ (detect_injection u text).0
unfolding is_injection
is_injection-first u text = refl

refuse_first :
    (b c : Bool) (r : String)
    → ◌≡◌ {A = Bool}
        (let p : Bool × Option String =
            if b then (false, none) else (if c then (true, some r) else (false, none)) in
          p.0)
        (if b then false else c)
refuse_first b c r = ground arith

is_injection_lem :
    (u : Database) (text : String)
    → is_injection u text
      ≡ (if is_empty text then false else leb 3 (weigh (firing u (normalize u text) all_signals)))
unfolding is_injection
is_injection_lem u text =
    ap (λ (r : Bool × Option String). r.0) (detect_injection_lem u text) ∙ refuse_first _ _ _

-- Nothing fires on the empty text.
hits-empty :
    (u : Database) (text : String)
    → is_empty text ≡ true
    → weigh (firing u (normalize u text) all_signals) ≡ 0
unfolding normalize fires
hits-empty u String.[] e = refl
hits-empty u (String.◌∷◌ c s) e = cc

-- A text is refused exactly when one HIGH signal fires, or two MEDIUM ones, or a MEDIUM one
-- together with a LOW one; LOW signals alone never refuse.
pub is_injection-tiers :
    (u : Database) (text : String)
    → (is_injection u text ≡ true)
      ↔ Crosses (hits u text high_signals) (hits u text medium_signals) (hits u text low_signals)
is_injection-tiers u text =
    let few = count-le-length (fires u (normalize u text)) low_signals in
    let tiers =
      Crosses-iff (hits u text high_signals) (hits u text medium_signals) (hits u text low_signals)
        few in
    elim (Bool-cases (is_empty text)) [
      | inl blank ↦
          rw (is_injection_lem, blank) (rw (← weigh_all u text, hits-empty u text blank) at tiers)
      | inr full ↦ rw (is_injection_lem, full) (rw (← weigh_all u text) at tiers)
    ]
