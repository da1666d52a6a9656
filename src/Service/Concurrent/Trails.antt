-- ===== src/Service/Concurrent/Trails.antt =====
-- What is found under one ticket (storage/repo.py) does not depend on the requests (service.py) that
-- run at the same time.
use mathlib.Core.List.{map-append}
use deskfleet_ticketwarden.Base.{
  arith, eq_iff, Bool, true, false, ◌≡◌, refl, ap, sym, ◌∙◌, String, Option, some, none, List, [],
  ◌∷◌, ◌++◌, filter, str_eq, Bool-cases, inl, inr, find?, if◌then◌else◌,
}
use deskfleet_ticketwarden.Platform.{Platform}
use deskfleet_ticketwarden.Storage.{TicketRow, upsert}
use deskfleet_ticketwarden.Service.Effects.{World}
use deskfleet_ticketwarden.Service.Audit.{
  entry, call_entry, logged, Entry, CallEntry, stored, call_entries, entries,
}
use deskfleet_ticketwarden.Service.Concurrent.{
  put_event, put_call, put_ticket, Write, perform, perform_all,
}

-- The ticket's row, its calls and its security events.
abbrev pub Trail : Type 0
Trail = Option TicketRow × List CallEntry × List Entry

unfoldable pub trail : String → World → Trail
trail id w = (
  stored id w,
  filter (λ (e : CallEntry). str_eq e.0 id) (call_entries w),
  filter (λ (e : Entry). str_eq e.0 id) (entries w),
)

-- A write that a ticket's trail can show.
abbrev pub concerns : String → Write → Bool
concerns id (put_ticket row) = str_eq row.id id
concerns id (put_call now owner call) = str_eq owner id
concerns id (put_event now owner event detail) = str_eq owner id
concerns id _ = false

abbrev merged : TicketRow → Option TicketRow → TicketRow
merged row none = row
merged row (some old) = record row { created_at = old.created_at }

apart : (i r s : String) → str_eq r s ≡ false → str_eq r i ≡ true → str_eq s i ≡ false
apart i r s differs mine = ground (arith, eq_iff r s, eq_iff r i, eq_iff s i)

find-merged :
    (id : String) (row : TicketRow) (rows : List TicketRow)
    → let before = find? (λ (r : TicketRow). str_eq r.id id) rows in
      find? (λ (r : TicketRow). str_eq r.id id) (upsert row rows)
      ≡ (if str_eq row.id id then some (merged row before) else before)
unfolding upsert
find-merged id row [] = refl
find-merged id row (r ∷ rows) = elim (Bool-cases (str_eq r.id row.id)) [
  | inl same ↦
      let alike : str_eq r.id id ≡ str_eq row.id id =
        ap (λ i. str_eq i id) ((eq_iff r.id row.id).0 same) in
      elim (Bool-cases (str_eq row.id id)) [
        | inl mine ↦ rw (same, alike, mine) refl
        | inr other ↦ rw (same, alike, other) refl
      ]
  | inr differs ↦ elim (Bool-cases (str_eq r.id id)) [
    | inl mine ↦ rw (differs, mine, apart id r.id row.id differs mine) refl
    | inr other ↦ rw (differs, other) (find-merged id row rows)
  ]
]

filter-concat :
    {A : Type 0} (p : A → Bool) (xs : List A) (y : A)
    → filter p (xs ++ y ∷ []) ≡ (if p y then filter p xs ++ y ∷ [] else filter p xs)
filter-concat p [] y = refl
filter-concat p (x ∷ xs) y = elim (Bool-cases (p x)) [
  | inl yes_ ↦ elim (Bool-cases (p y)) [
    | inl last ↦ rw (yes_, filter-concat p xs y, last) refl
    | inr last ↦ rw (yes_, filter-concat p xs y, last) refl
  ]
  | inr no_ ↦ rw no_ (filter-concat p xs y)
]

module _ (P : Platform) (id : String) where
  -- What a write does to a trail, as far as the trail shows.
  abbrev pub extend : Write → Trail → Trail
  extend (put_ticket row) (row?, calls, events) =
      (if str_eq row.id id then some (merged row row?) else row?, calls, events)
  extend (put_call now owner call) (row?, calls, events) =
      (row?, if str_eq owner id then calls ++ logged P owner call ∷ [] else calls, events)
  extend (put_event now owner event detail) (row?, calls, events) =
      (row?, calls, if str_eq owner id then events ++ (owner, event, detail) ∷ [] else events)
  extend _ found = found

  trail-perform : (x : Write) (w : World) → trail id (perform P x w) ≡ extend x (trail id w)
  unfolding perform trail
  trail-perform (put_ticket row) w = rw (find-merged id row w.db.tickets) refl
  trail-perform (put_call now owner call) w =
      ap (λ calls. (stored id w, calls, filter (λ (e : Entry). str_eq e.0 id) (entries w)))
        (ap (filter _) (map-append call_entry w.db.tool_calls _)
          ∙ filter-concat _ (call_entries w) _)
  trail-perform (put_event now owner event detail) w =
      ap
        (λ events.
          (stored id w, filter (λ (e : CallEntry). str_eq e.0 id) (call_entries w), events))
        (ap (filter _) (map-append entry w.db.security_events _) ∙ filter-concat _ (entries w) _)
  trail-perform _ w = refl

  extend-foreign : (x : Write) (found : Trail) → concerns id x ≡ false → extend x found ≡ found
  extend-foreign (put_ticket row) found foreign = rw foreign refl
  extend-foreign (put_call now owner call) found foreign = rw foreign refl
  extend-foreign (put_event now owner event detail) found foreign = rw foreign refl
  extend-foreign _ found foreign = refl

  -- Only the writes that concern a ticket change its trail.
  pub trail-filter :
      (xs : List Write) (w v : World)
      → trail id w ≡ trail id v
      → trail id (perform_all P xs w) ≡ trail id (perform_all P (filter (concerns id) xs) v)
  unfolding perform_all
  trail-filter [] w v same = same
  trail-filter (x ∷ xs) w v same = elim (Bool-cases (concerns id x)) [
    | inl mine ↦ rw mine (
        trail-filter xs (perform P x w) (perform P x v)
          (trail-perform x w ∙ ap (extend x) same ∙ sym (trail-perform x v)))
    | inr other ↦ rw other (
        trail-filter xs (perform P x w) v
          (trail-perform x w ∙ extend-foreign x (trail id w) other ∙ same))
  ]
