-- ===== src/Catalog/Seed/Load.antt =====
-- The load of the fixture data (store/seed.py), once and again.
use deskfleet_ticketwarden.Base.{
  ◌≡◌, refl, Bool, true, List, [], ◌∷◌, ◌++◌, any, All, arith, Bool-cases, inl, inr, if◌then◌else◌,
}
use deskfleet_ticketwarden.Catalog.Tables.{Product, Order, OrderItem, Catalog}
use deskfleet_ticketwarden.Catalog.Seed.{
  products, orders, order_items, insert_or_ignore, same_product, same_order, same_item,
  seed_catalog,
}

module _ {A : Type 0} (same : A → A → Bool) where
  -- A row with the key of `r` is in the table.
  abbrev pub IsThere : List A → A → Type 0
  IsThere table r = any (same r) table ≡ true

  any-append : (p : A → Bool) (xs ys : List A) → any p xs ≡ true → any p (xs ++ ys) ≡ true
  any-append p [] ys h = cc
  any-append p (x ∷ xs) ys h = elim (Bool-cases (p x)) [
    | inl yes_ ↦ rw yes_ refl
    | inr no_ ↦ rw no_ (any-append p xs ys (rw no_ at h))
  ]

  any-last : (p : A → Bool) (xs : List A) (y : A) → p y ≡ true → any p (xs ++ y ∷ []) ≡ true
  any-last p [] y h = rw h refl
  any-last p (x ∷ xs) y h = elim (Bool-cases (p x)) [
    | inl yes_ ↦ rw yes_ refl
    | inr no_ ↦ rw no_ (any-last p xs y h)
  ]

  -- The table after one row.
  abbrev step : List A → A → List A
  step table r = if any (same r) table then table else table ++ r ∷ []

  step_keeps : (table : List A) (r s : A) → IsThere table s → IsThere (step table r) s
  step_keeps table r s h = elim (Bool-cases (any (same r) table)) [
    | inl there ↦ rw there h
    | inr new ↦ rw new (any-append (same s) table (r ∷ []) h)
  ]

  step_adds : (table : List A) (r : A) → same r r ≡ true → IsThere (step table r) r
  step_adds table r h = elim (Bool-cases (any (same r) table)) [
    | inl there ↦ rw there there
    | inr new ↦ rw new (any-last (same r) table r h)
  ]

  insert_or_ignore_keeps :
      (rows table : List A) (s : A) → IsThere table s → IsThere (insert_or_ignore same table rows) s
  unfolding insert_or_ignore
  insert_or_ignore_keeps [] table s h = h
  insert_or_ignore_keeps (r ∷ rows) table s h =
      insert_or_ignore_keeps rows (step table r) s (step_keeps table r s h)

  insert_or_ignore_adds :
      (rows table : List A)
      → All (λ (r : A). same r r ≡ true) rows
      → All (IsThere (insert_or_ignore same table rows)) rows
  unfolding insert_or_ignore
  insert_or_ignore_adds [] table h = tt
  insert_or_ignore_adds (r ∷ rows) table h = (
    insert_or_ignore_keeps rows (step table r) r (step_adds table r h.0),
    insert_or_ignore_adds rows (step table r) h.1,
  )

  insert_or_ignore_there :
      (rows table : List A) → All (IsThere table) rows → insert_or_ignore same table rows ≡ table
  unfolding insert_or_ignore
  insert_or_ignore_there [] table h = refl
  insert_or_ignore_there (r ∷ rows) table h = rw h.0 (insert_or_ignore_there rows table h.1)

  insert_or_ignore_twice :
      (rows table : List A)
      → All (λ (r : A). same r r ≡ true) rows
      → let once = insert_or_ignore same table rows in insert_or_ignore same once rows ≡ once
  insert_or_ignore_twice rows table h =
      insert_or_ignore_there rows (insert_or_ignore same table rows)
        (insert_or_ignore_adds rows table h)

-- After the load every fixture row's key is in its table, whatever was there before, and a second
-- load changes nothing.
pub seed_catalog_lem :
    (c : Catalog)
    → let c' = seed_catalog c in
      All (IsThere same_product c'.products) products
      × All (IsThere same_order c'.orders) orders
      × All (IsThere same_item c'.order_items) order_items
      × (seed_catalog c' ≡ c')
unfolding seed_catalog
seed_catalog_lem c =
    let p : All (λ (r : Product). same_product r r ≡ true) products = ground arith in
    let o : All (λ (r : Order). same_order r r ≡ true) orders = ground arith in
    let i : All (λ (r : OrderItem). same_item r r ≡ true) order_items = ground arith in
    (
      insert_or_ignore_adds same_product products c.products p,
      insert_or_ignore_adds same_order orders c.orders o,
      insert_or_ignore_adds same_item order_items c.order_items i,
      rw
          (
            insert_or_ignore_twice same_product products c.products p,
            insert_or_ignore_twice same_order orders c.orders o,
            insert_or_ignore_twice same_item order_items c.order_items i,
          )
          refl,
    )
