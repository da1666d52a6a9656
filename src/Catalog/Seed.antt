-- ===== src/Catalog/Seed.antt =====
-- The fixture data and its load (apps/api/src/store/seed.py).
pub mod Load
use deskfleet_ticketwarden.Base.{
  ℕ, ℤ, String, Bool, ◌&&◌, Option, none, some, List, [], ◌∷◌, ◌++◌, int_beq, any, if◌then◌else◌,
}
use deskfleet_ticketwarden.Catalog.Tables.{Product, Order, OrderItem, Catalog}

abbrev product : ℕ → String → String → ℕ → String → Product
product id title category price description = record {
  id = ℤ.pos id;
  title = title;
  category = category;
  price = price;
  description = some description;
}

abbrev order : ℕ → String → String → Option String → Option String → String → Order
order id customer_name status carrier tracking_number placed_at = record {
  id = ℤ.pos id;
  customer_name = customer_name;
  status = status;
  carrier = carrier;
  tracking_number = tracking_number;
  placed_at = placed_at;
}

abbrev item : ℕ → ℕ → ℕ → OrderItem
item order_id product_id quantity = record {
  order_id = ℤ.pos order_id;
  product_id = ℤ.pos product_id;
  quantity = ℤ.pos quantity;
}

-- `PRODUCTS`, with prices in hundredths
abbrev pub products : List Product
products =
    product 1 "Trailhead 45L Backpack" "outdoor" 12999 "Weatherproof multi-day hiking pack."
    ∷ product 2 "Summit Ridge 2-Person Tent" "outdoor" 18950
        "Freestanding 3-season backpacking tent."
    ∷ product 3 "EmberCore Camp Stove" "outdoor" 5400 "Compact folding stove, isobutane canister."
    ∷ product 4 "AquaFlow Filter Bottle" "outdoor" 3275
        "0.2-micron filter straw built into the cap."
    ∷ product 5 "NightSky 4-Season Sleeping Bag" "outdoor" 14500 "Rated to -6C, synthetic fill."
    ∷ product 6 "TrailBeam Headlamp 400" "electronics" 2899 "400-lumen rechargeable headlamp."
    ∷ product 7 "PowerCell 10K Solar Charger" "electronics" 4550
        "10,000mAh panel-charged power bank."
    ∷ product 8 "RangeFinder GPS Compass" "electronics" 6200
        "Handheld GPS unit with digital compass."
    ∷ product 9 "WeatherEye Handheld Anemometer" "electronics" 3999 "Wind speed/temperature meter."
    ∷ product 10 "Basecamp Fleece Pullover" "apparel" 5800 "Midweight fleece, half-zip."
    ∷ product 11 "TrailGuard Rain Shell" "apparel" 8900 "Packable waterproof-breathable shell."
    ∷ product 12 "Summit Wool Hiking Socks (3-pack)" "apparel" 1850 "Merino blend, cushioned sole."
    ∷ []

-- `ORDERS`
abbrev pub orders : List Order
orders =
    order 1 "J. Rodrigues" "delivered" (some "UPS") (some "1Z999AA10123456784") "2026-07-01"
    ∷ order 2 "M. Dmello" "in_transit" (some "FedEx") (some "784123456789") "2026-07-10"
    ∷ order 3 "R. Pereira" "processing" none none "2026-07-20"
    ∷ order 4 "S. Dbritto" "shipped" (some "USPS") (some "9400111899223197428506") "2026-07-15"
    ∷ order 5 "K. Dsouza" "returned" (some "UPS") (some "1Z999AA10123456785") "2026-06-25"
    ∷ order 6 "D. Tuscano" "delivered" (some "FedEx") (some "784123456790") "2026-06-18"
    ∷ order 7 "L. Dias" "in_transit" (some "UPS") (some "1Z999AA10123456786") "2026-07-22"
    ∷ order 8 "A. Correia" "processing" none none "2026-07-24"
    ∷ order 9 "E. Fernandez" "delivered" (some "USPS") (some "9400111899223197428507") "2026-06-05"
    ∷ order 10 "P. Lopes" "shipped" (some "FedEx") (some "784123456792") "2026-07-18"
    ∷ []

-- `ORDER_ITEMS`
abbrev pub order_items : List OrderItem
order_items =
    item 1 1 1
    ∷ item 1 6 1
    ∷ item 2 2 1
    ∷ item 3 3 2
    ∷ item 3 4 1
    ∷ item 4 5 1
    ∷ item 5 11 1
    ∷ item 6 7 1
    ∷ item 6 9 1
    ∷ item 7 8 1
    ∷ item 8 10 1
    ∷ item 8 12 2
    ∷ item 9 1 1
    ∷ item 9 5 1
    ∷ item 10 6 2
    ∷ item 10 4 1
    ∷ []

-- `INSERT OR IGNORE`: a row whose primary key is there already is skipped.
unfoldable pub insert_or_ignore {ℓ} : {A : Type ℓ} → (A → A → Bool) → List A → List A → List A
insert_or_ignore same table [] = table
insert_or_ignore same table (r ∷ rows) =
    insert_or_ignore same (if any (same r) table then table else table ++ r ∷ []) rows

abbrev pub same_product : Product → Product → Bool
same_product a b = int_beq a.id b.id

abbrev pub same_order : Order → Order → Bool
same_order a b = int_beq a.id b.id

abbrev pub same_item : OrderItem → OrderItem → Bool
same_item a b = int_beq a.order_id b.order_id && int_beq a.product_id b.product_id

unfoldable pub seed_catalog : Catalog → Catalog
unfolding insert_or_ignore
seed_catalog c = record {
  products = insert_or_ignore same_product c.products products;
  orders = insert_or_ignore same_order c.orders orders;
  order_items = insert_or_ignore same_item c.order_items order_items;
}
