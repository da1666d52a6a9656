-- ===== src/Routes/Listing.antt =====
-- The pages that `GET /tickets` and `GET /security-events` return (main.py).
use deskfleet_ticketwarden.Base.{
  ℕ, ℤ, ◌≡◌, ◌≤◌, refl, List, [], ◌∷◌, arith, length, leb, Bool-cases, inl, inr, length-take,
  length-map, ◌∙◌, ap, suc, length-append,
}
use Prim.Native.Nat.{min}
use mathlib.Core.List.{reverse, reverse-cons}
use deskfleet_ticketwarden.Storage.{
  place, newest_first, recent, recent_tickets, recent_security_events, TicketRow, SecurityEventRow,
}
use deskfleet_ticketwarden.Routes.{App, clamp, tickets, security_events}

length-reverse : {A : Type 0} (xs : List A) → length (reverse xs) ≡ length xs
length-reverse [] = refl
length-reverse (x ∷ xs) =
    rw (reverse-cons x xs, length-append (reverse xs) (x ∷ [])) (omega (arith, length-reverse xs))

module _ {A : Type 0} (created_at : A → ℕ) where
  length-place : (r : A) (rows : List A) → length (place created_at r rows) ≡ suc (length rows)
  unfolding place
  length-place r [] = refl
  length-place r (s ∷ rows) = elim (Bool-cases (leb (created_at s) (created_at r))) [
    | inl newer ↦ rw newer refl
    | inr older ↦ rw older (ap suc (length-place r rows))
  ]

  length-newest_first : (rows : List A) → length (newest_first created_at rows) ≡ length rows
  unfolding newest_first
  length-newest_first [] = refl
  length-newest_first (r ∷ rows) =
      length-place r (newest_first created_at rows) ∙ ap suc (length-newest_first rows)

  length-recent :
      (limit : ℕ) (rows : List A) → length (recent created_at limit rows) ≡ min limit (length rows)
  unfolding recent
  length-recent limit rows =
      length-take limit (newest_first created_at (reverse rows))
      ∙ ap (min limit) (length-newest_first (reverse rows) ∙ length-reverse rows)

clamp_bounds : (limit : ℤ) → (1 ≤ clamp limit) × (clamp limit ≤ 100)
clamp_bounds (ℤ.pos n) = (ground arith, ground arith)
clamp_bounds (ℤ.negsuc n) = (omega arith, omega arith)

-- Whatever limit a request names, the limit that is used lies between 1 and 100, and the number of
-- rows of a page is the smaller of that limit and the number of rows in the table.
pub length-tickets :
    (limit : ℤ) (app : App)
    → (1 ≤ clamp limit)
      × (clamp limit ≤ 100)
      × (length (tickets limit app) ≡ min (clamp limit) (length app.world.db.tickets))
      × (length (security_events limit app)
          ≡ min (clamp limit) (length app.world.db.security_events))
unfolding tickets security_events recent_tickets recent_security_events
length-tickets limit app =
    let (low, high) = clamp_bounds limit in
    (
      low,
      high,
      length-map _ _ ∙ length-recent (λ (r : TicketRow). r.created_at) (clamp limit) _,
      length-map _ _ ∙ length-recent (λ (r : SecurityEventRow). r.created_at) (clamp limit) _,
    )
