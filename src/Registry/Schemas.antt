-- ===== src/Registry/Schemas.antt =====
-- `TOOL_SCHEMAS` (store/registry.py): the tools as the model is told of them.
use deskfleet_ticketwarden.Base.{String, List, [], ◌∷◌, ◌<>◌}

-- A parameter of a tool; all of them are strings.
pub record Parameter : Type 0 where
  pub name : String
  pub description : String

pub record ToolSchema : Type 0 where
  pub name : String
  pub description : String
  pub properties : List Parameter
  pub required : List String

abbrev pub tool_schemas : List ToolSchema
tool_schemas =
    record {
      name = "check_order_status";
      description =
          "Look up the fulfillment status, carrier, and line items for a "
          <> "customer order by its numeric order id.";
      properties = record { name = "order_id"; description = "Numeric order id." } ∷ [];
      required = "order_id" ∷ [];
    }
    ∷ record {
      name = "get_product_details";
      description = "Fetch details (title, price, description) for one product by id.";
      properties = record { name = "product_id"; description = "Numeric product id." } ∷ [];
      required = "product_id" ∷ [];
    }
    ∷ record {
      name = "search_catalog";
      description = "Search the product catalog by keyword and optional category.";
      properties =
          record { name = "query"; description = "Keyword to search for." }
          ∷ record {
            name = "category";
            description = "Optional category filter (outdoor, electronics, apparel).";
          }
          ∷ [];
      required = "query" ∷ [];
    }
    ∷ []
