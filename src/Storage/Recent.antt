-- ===== src/Storage/Recent.antt =====
-- The recent rows of a table (storage/repo.py): which they are and in which order.
use deskfleet_ticketwarden.Base.{
  refl, ◌≡◌, take, lt_of_leb, leb→le, ℕ, ◌≤◌, List, [], ◌∷◌, leb, All, arith, Bool-cases, inl, inr,
}
use mathlib.Core.List.Perm
use mathlib.Core.List.{reverse, reverse_perm}
use mathlib.Core.List.{Perm}
use deskfleet_ticketwarden.Storage.{
  recent, Database, TicketRow, SecurityEventRow, recent_tickets, recent_security_events, place,
  newest_first,
}

module _ {A : Type 0} (created_at : A → ℕ) where
  -- Every row is at least as new as the rows that follow it.
  abbrev pub IsNewestFirst : List A → Type 0
  IsNewestFirst [] = Unit
  IsNewestFirst (r ∷ rows) = All (λ (s : A). created_at s ≤ created_at r) rows × IsNewestFirst rows

  place-All :
      (Q : A → Type 0) (r : A) (rows : List A) → Q r → All Q rows → All Q (place created_at r rows)
  unfolding place
  place-All Q r [] q h = (q, tt)
  place-All Q r (s ∷ rows) q h = elim (Bool-cases (leb (created_at s) (created_at r))) [
    | inl newer ↦ rw newer (q, h)
    | inr older ↦ rw older (h.0, place-All Q r rows q h.1)
  ]

  All-le :
      (m n : ℕ) (rows : List A)
      → m ≤ n
      → All (λ (s : A). created_at s ≤ m) rows
      → All (λ (s : A). created_at s ≤ n) rows
  All-le m n [] h a = tt
  All-le m n (s ∷ rows) h a = (omega (arith, a.0, h), All-le m n rows h a.1)

  place-IsNewestFirst :
      (r : A) (rows : List A) → IsNewestFirst rows → IsNewestFirst (place created_at r rows)
  unfolding place
  place-IsNewestFirst r [] h = (tt, tt)
  place-IsNewestFirst r (s ∷ rows) h = elim (Bool-cases (leb (created_at s) (created_at r))) [
    | inl newer ↦
        let le = leb→le (created_at s) (created_at r) newer in
        rw newer ((le, All-le _ _ rows le h.0), h)
    | inr older ↦
        let lt = lt_of_leb (created_at s) (created_at r) older in
        rw older (
          place-All (λ (t : A). created_at t ≤ created_at s) r rows (omega (arith, lt)) h.0,
          place-IsNewestFirst r rows h.1,
        )
  ]

  newest_first-IsNewestFirst : (rows : List A) → IsNewestFirst (newest_first created_at rows)
  unfolding newest_first
  newest_first-IsNewestFirst [] = tt
  newest_first-IsNewestFirst (r ∷ rows) =
      place-IsNewestFirst r (newest_first created_at rows) (newest_first-IsNewestFirst rows)

  place-Perm : (r : A) (rows : List A) → Perm (place created_at r rows) (r ∷ rows)
  unfolding place
  place-Perm r [] = Perm.rfl
  place-Perm r (s ∷ rows) = elim (Bool-cases (leb (created_at s) (created_at r))) [
    | inl newer ↦ rw newer Perm.rfl
    | inr older ↦ rw older (Perm.trans (Perm.cons s (place-Perm r rows)) (Perm.swap r s rows))
  ]

  newest_first-Perm : (rows : List A) → Perm (newest_first created_at rows) rows
  unfolding newest_first
  newest_first-Perm [] = Perm.nil
  newest_first-Perm (r ∷ rows) =
      Perm.trans (place-Perm r (newest_first created_at rows))
        (Perm.cons r (newest_first-Perm rows))

  recent_lem :
      (limit : ℕ) (rows : List A)
      → (sorted : List A) × Perm sorted rows
        × IsNewestFirst sorted
        × (recent created_at limit rows ≡ take limit sorted)
  unfolding recent
  recent_lem limit rows = (
    newest_first created_at (reverse rows),
    Perm.trans (newest_first-Perm (reverse rows)) (reverse_perm rows),
    newest_first-IsNewestFirst (reverse rows),
    refl,
  )

-- Both lists of recent rows are the first `limit` rows of their whole table, sorted by the time of
-- creation with the newest first: no row is missing, doubled or older than one that is left out.
pub recent_rows_lem :
    (limit : ℕ) (db : Database)
    → ((rows : List TicketRow) × Perm rows db.tickets
        × IsNewestFirst (λ (r : TicketRow). r.created_at) rows
        × (recent_tickets limit db ≡ take limit rows))
      × ((rows : List SecurityEventRow) × Perm rows db.security_events
          × IsNewestFirst (λ (r : SecurityEventRow). r.created_at) rows
          × (recent_security_events limit db ≡ take limit rows))
unfolding recent_tickets recent_security_events
recent_rows_lem limit db = (
  recent_lem (λ (r : TicketRow). r.created_at) limit db.tickets,
  recent_lem (λ (r : SecurityEventRow). r.created_at) limit db.security_events,
)
