-- ===== src/Catalog.antt =====
-- The read-only queries against the catalog (apps/api/src/store/catalog.py). A table is a list of
-- rows in the order in which SQLite gives them; opening and closing a connection has no effect.
pub mod Tables
pub mod Seed
use deskfleet_ticketwarden.Base.{
  ℕ, ℤ, String, Bool, true, false, ◌&&◌, ◌||◌, Option, none, some, List, [], ◌∷◌, ◌++◌, map,
  int_beq, find?, filter, take, length, str_eq, ◌<>◌, if◌then◌else◌,
}
use deskfleet_ticketwarden.Action.{Result, ok, raised, exception}
use deskfleet_ticketwarden.Platform.{Platform, py_str, parse_int, fits_sqlite, like}
use deskfleet_ticketwarden.Value.{
  Value, null, bool, int, amount, text, list, dict, Elements, no_elements, element, Pairs, no_pairs,
  pair, optional_text, is_truthy,
}
use Tables.{Product, Order, OrderItem, Catalog}

abbrev pub failure : String → String → Value → Value
failure error key given = dict (pair "error" (text error) (pair key given no_pairs))

-- One row of the join of an order's items with their products.
abbrev line_of : Product → OrderItem → Value
line_of p oi = dict (
    pair "title" (text p.title)
      (pair "price" (amount p.price) (pair "quantity" (int oi.quantity) no_pairs)))

-- `order_items oi JOIN products p ON p.id = oi.product_id WHERE oi.order_id = ?`
unfoldable pub lines_of : Catalog → ℤ → List OrderItem → Elements
lines_of c oid [] = no_elements
lines_of c oid (oi ∷ ois) =
    let rest = lines_of c oid ois in
    if int_beq oi.order_id oid
    then elim (find? (λ (p : Product). int_beq p.id oi.product_id) c.products) [
      | none ↦ rest
      | some p ↦ element (line_of p oi) rest
    ]
    else rest

abbrev pub order_report : Catalog → ℤ → Order → Value
order_report c oid order = dict (
    pair "order_id" (int oid) (
      pair "status" (text order.status) (
        pair "customer_name" (text order.customer_name) (
          pair "carrier" (optional_text order.carrier) (
            pair "tracking_number" (optional_text order.tracking_number) (
              pair "placed_at" (text order.placed_at)
                (pair "items" (list (lines_of c oid c.order_items)) no_pairs)))))))

abbrev pub product_row : Product → Value
product_row p = dict (
    pair "id" (int p.id) (
      pair "title" (text p.title) (
        pair "category" (text p.category) (
          pair "price" (amount p.price)
            (pair "description" (optional_text p.description) no_pairs)))))

-- A row as `search_catalog` selects it.
abbrev pub hit_row : Product → Value
hit_row p = dict (
    pair "id" (int p.id) (
      pair "title" (text p.title)
        (pair "category" (text p.category) (pair "price" (amount p.price) no_pairs))))

abbrev pub items_of : List Value → Elements
items_of [] = no_elements
items_of (v ∷ vs) = element v (items_of vs)

module _ (P : Platform) (c : Catalog) where
  unfoldable pub check_order_status : Value → Result Value
  unfolding lines_of parse_int py_str
  check_order_status order_id = elim (parse_int P.unicode (py_str P order_id)) [
    | none ↦ ok (failure "invalid_order_id" "order_id" (text (py_str P order_id)))
    | some oid ↦
        if fits_sqlite oid
        then elim (find? (λ (o : Order). int_beq o.id oid) c.orders) [
          | none ↦ ok (failure "order_not_found" "order_id" (int oid))
          | some order ↦ ok (order_report c oid order)
        ]
        else raised (exception P.overflow_error)
  ]

  unfoldable pub get_product_details : Value → Result Value
  unfolding parse_int py_str
  get_product_details product_id = elim (parse_int P.unicode (py_str P product_id)) [
    | none ↦ ok (failure "invalid_product_id" "product_id" (text (py_str P product_id)))
    | some pid ↦
        if fits_sqlite pid
        then elim (find? (λ (p : Product). int_beq p.id pid) c.products) [
          | none ↦ ok (failure "product_not_found" "product_id" (int pid))
          | some row ↦ ok (product_row row)
        ]
        else raised (exception P.overflow_error)
  ]

  -- A parameter that a query is given: the text that a TEXT column is compared with.
  unfoldable pub bind : Value → Result String
  bind (text s) = ok s
  bind (int n) =
      if fits_sqlite n then ok (P.sql_text (int n)) else raised (exception P.overflow_error)
  bind (list xs) = raised (exception (P.binding_error (list xs)))
  bind (dict d) = raised (exception (P.binding_error (dict d)))
  bind v = ok (P.sql_text v)

  -- `AND category = ?`, which stands in the query only for a category that is given
  unfoldable pub in_category : Value → List Product → Result (List Product)
  unfolding bind
  in_category category rows =
      if is_truthy category
      then elim (bind category) [
        | ok s ↦ ok (filter (λ (p : Product). str_eq p.category s) rows)
        | raised e ↦ raised e
      ]
      else ok rows

  abbrev matches : String → Product → Bool
  matches pattern p =
      like pattern p.title || elim p.description [ none ↦ false | some d ↦ like pattern d ]

  -- `AND (title LIKE ? OR description LIKE ?)`, likewise
  unfoldable pub with_keyword : Value → List Product → List Product
  unfolding py_str like
  with_keyword query rows =
      if is_truthy query then filter (matches ("%" <> (py_str P query <> "%"))) rows else rows

  abbrev search_report : Value → Value → List Product → Value
  search_report query category rows = dict (
      pair "query" query (
        pair "category" category (
          pair "count" (int (ℤ.pos (length rows)))
            (pair "results" (list (items_of (map hit_row rows))) no_pairs))))

  unfoldable pub search_catalog : Value → Value → Result Value
  unfolding in_category with_keyword
  search_catalog query category = elim (in_category category c.products) [
    | ok rows ↦ ok (search_report query category (take 10 (with_keyword query rows)))
    | raised e ↦ raised e
  ]
