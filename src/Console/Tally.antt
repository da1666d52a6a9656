-- ===== src/Console/Tally.antt =====
-- The counts of the security tab and of the session.
use deskfleet_ticketwarden.Console.Page.{
  no_stats, add_decision, session_stats, decision_of_message, Stats, stats_from,
}
use deskfleet_ticketwarden.Base.{
  Option-cases, if◌then◌else◌, ℕ, ◌+◌, String, Bool, false, Option, none, some, List, [], ◌∷◌, ◌≡◌,
  refl, arith, eq_iff, str_eq, count, length, filter, Bool-cases, inl, inr, any,
}
use deskfleet_ticketwarden.Console.{Message, Session}
use deskfleet_ticketwarden.Console.Api.{EventRow}
use deskfleet_ticketwarden.Console.Result.{decided}
use deskfleet_ticketwarden.Console.Tabs.{
  add_one, count_types, type_of, chosen_events, untyped, has_type,
}

-- The number of a type's chip, 0 without a chip.
abbrev pub chip_number : String → List (String × ℕ) → ℕ
chip_number t [] = 0
chip_number t ((u, n) ∷ counts) = if str_eq u t then n else chip_number t counts

abbrev pub total : List (String × ℕ) → ℕ
total [] = 0
total ((u, n) ∷ counts) = n + total counts

abbrev pub is_type : String → EventRow → Bool
is_type t ev = str_eq (type_of ev) t

chip_number-add_one :
    (t u : String) (counts : List (String × ℕ))
    → chip_number t (add_one u counts)
      ≡ (if str_eq u t then chip_number t counts + 1 else chip_number t counts)
unfolding add_one
chip_number-add_one t u [] = ground arith
chip_number-add_one t u ((v, n) ∷ counts) =
    ground (arith, eq_iff v u, eq_iff v t, eq_iff u t, chip_number-add_one t u counts)

total-add_one :
    (u : String) (counts : List (String × ℕ)) → total (add_one u counts) ≡ total counts + 1
unfolding add_one
total-add_one u [] = omega arith
total-add_one u ((v, n) ∷ counts) = ground (arith, total-add_one u counts)

chip_number-count_types :
    (t : String) (counts : List (String × ℕ)) (events : List EventRow)
    → chip_number t (count_types counts events) ≡ chip_number t counts + count (is_type t) events
unfolding count_types
chip_number-count_types t counts [] = omega arith
chip_number-count_types t counts (ev ∷ events) = ground (
  arith,
  chip_number-count_types t (add_one (type_of ev) counts) events,
  chip_number-add_one t (type_of ev) counts,
)

total-count_types :
    (counts : List (String × ℕ)) (events : List EventRow)
    → total (count_types counts events) ≡ total counts + length events
unfolding count_types
total-count_types counts [] = omega arith
total-count_types counts (ev ∷ events) = omega (
  arith,
  total-count_types (add_one (type_of ev) counts) events,
  total-add_one (type_of ev) counts,
)

length-filter_typed :
    (t : String) (events : List EventRow)
    → any untyped events ≡ false
    → length (filter (has_type t) events) ≡ count (is_type t) events
length-filter_typed t [] h = refl
length-filter_typed t (ev ∷ events) h = elim (Option-cases ev.event_type) [
  | inl missing ↦ ground (arith, missing)
  | inr (u, named) ↦
      let more = length-filter_typed t events in rw named (ground (arith, named, more))
]

-- Where every event says its type, the chips of the security tab count every event once, and the
-- number of a type is both the number of the events of that type and the number of the events that
-- are shown when that type is chosen.
pub count_types_lem :
    (events : List EventRow) (t : String)
    → any untyped events ≡ false
    → str_eq t "All" ≡ false
    → (total (count_types [] events) ≡ length events)
      × (chip_number t (count_types [] events) ≡ count (is_type t) events)
      × (length (chosen_events t events) ≡ chip_number t (count_types [] events))
count_types_lem events t typed other =
    let chip : chip_number t (count_types [] events) ≡ count (is_type t) events =
      omega (arith, chip_number-count_types t [] events) in
    (
      omega (arith, total-count_types [] events),
      chip,
      rw (other, chip) (length-filter_typed t events typed),
    )

-- The number of messages that keep an answer with this decision.
abbrev has_decision : String → Message → Bool
has_decision d m = decided (decision_of_message m) d

abbrev IsTallyOf : Stats → List Message → Stats → Type 0
IsTallyOf before ms k =
    (k.resolved ≡ before.resolved + count (has_decision "RESOLVED") ms)
    × (k.escalate ≡ before.escalate + count (has_decision "ESCALATE") ms)
    × (k.refuse ≡ before.refuse + count (has_decision "REFUSE") ms)

-- One decision, as a number of messages.
abbrev one_if : String → Option String → ℕ
one_if d o = if decided o d then 1 else 0

add_decision_lem :
    (o : Option String) (k : Stats)
    → ((add_decision o k).resolved ≡ k.resolved + one_if "RESOLVED" o)
      × ((add_decision o k).escalate ≡ k.escalate + one_if "ESCALATE" o)
      × ((add_decision o k).refuse ≡ k.refuse + one_if "REFUSE" o)
add_decision_lem none k = (omega arith, omega arith, omega arith)
add_decision_lem (some d) k = elim (Bool-cases (str_eq d "RESOLVED")) [
  | inl h ↦ rw ((eq_iff d "RESOLVED").0 h) (omega arith, omega arith, omega arith)
  | inr resolved ↦ elim (Bool-cases (str_eq d "ESCALATE")) [
    | inl h ↦ rw ((eq_iff d "ESCALATE").0 h) (omega arith, omega arith, omega arith)
    | inr escalate ↦ rw (resolved, escalate) (ground arith, ground arith, ground arith)
  ]
]

stats_from-IsTallyOf : (k : Stats) (ms : List Message) → IsTallyOf k ms (stats_from k ms)
unfolding stats_from
stats_from-IsTallyOf k [] = (omega arith, omega arith, omega arith)
stats_from-IsTallyOf k (m ∷ ms) =
    let next = add_decision (decision_of_message m) k in
    let (one, two, three) = add_decision_lem (decision_of_message m) k in
    let (a, b, c) = stats_from-IsTallyOf next ms in
    (ground (arith, one, a), ground (arith, two, b), ground (arith, three, c))

-- The counts of the sidebar are the numbers of the session's messages that keep an answer with the
-- decision they stand for.
pub session_stats_lem :
    (s : Session)
    → ((session_stats s).resolved ≡ count (has_decision "RESOLVED") s.messages)
      × ((session_stats s).escalate ≡ count (has_decision "ESCALATE") s.messages)
      × ((session_stats s).refuse ≡ count (has_decision "REFUSE") s.messages)
unfolding session_stats
session_stats_lem s =
    let (a, b, c) = stats_from-IsTallyOf no_stats s.messages in
    (omega (arith, a), omega (arith, b), omega (arith, c))
