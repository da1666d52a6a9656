-- ===== src/Catalog/Tables.antt =====
-- The rows of the catalog's tables (the schema in apps/api/src/storage/db.py).
use deskfleet_ticketwarden.Base.{ℕ, ℤ, String, Option, List}

pub record Product : Type 0 where
  pub id : ℤ
  pub title : String
  pub category : String
  -- in hundredths
  pub price : ℕ
  pub description : Option String

pub record Order : Type 0 where
  pub id : ℤ
  pub customer_name : String
  pub status : String
  pub carrier : Option String
  pub tracking_number : Option String
  pub placed_at : String

pub record OrderItem : Type 0 where
  pub order_id : ℤ
  pub product_id : ℤ
  pub quantity : ℤ

pub record Catalog : Type 0 where
  pub products : List Product
  pub orders : List Order
  pub order_items : List OrderItem
