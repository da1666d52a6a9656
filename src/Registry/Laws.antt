-- ===== src/Registry/Laws.antt =====
-- The allowlist of store/registry.py as a boundary: which requests are blocked, and what a record says of the call.
use deskfleet_ticketwarden.Base.{
  eq_iff, ◌⊎◌, String, true, false, ◌≡◌, ◌≢◌, ◌↔◌, refl, Option, none, some, is_some, or_else,
  arith, if◌then◌else◌,
}
use deskfleet_ticketwarden.Vocabulary.{ToolStatus}
use deskfleet_ticketwarden.Action.{Result, ok, raised, type_error, exception}
use deskfleet_ticketwarden.Platform.{Platform}
use deskfleet_ticketwarden.Value.{Value, Pairs, no_pairs}
use deskfleet_ticketwarden.Catalog.Tables.{Catalog}
use deskfleet_ticketwarden.Registry.Schemas.{ToolSchema, tool_schemas}
use deskfleet_ticketwarden.Base.{any, str_eq}
use deskfleet_ticketwarden.Registry.{
  dispatch_found, ToolRecord, Tool, allowlist, lookup_tool, is_allowed, reports_error, record_of,
  blocked_record, dispatch_tool,
}

not_found {ℓ} : {A : Type ℓ} (o : Option A) → is_some o ≡ false → o ≡ none
not_found none h = refl
not_found (some a) h = cc

-- What a record says of a call that ended as `r`.
abbrev pub Reports : Result Value → ToolRecord → Type 0
Reports (raised e) rec = rec.status ≡ ToolStatus.error
Reports (ok result) rec =
    (rec.result ≡ result)
    × (rec.status ≡ (if reports_error result then ToolStatus.error else ToolStatus.ok))

record_of-not_blocked :
    (name : String) (args : Pairs) (r : Result Value)
    → (record_of name args r).status ≢ ToolStatus.blocked
record_of-not_blocked name args (raised (type_error detail)) = cc
record_of-not_blocked name args (raised (exception detail)) = cc
record_of-not_blocked name args (ok result) = ground arith

blocked_iff :
    (P : Platform) (c : Catalog) (name : String) (args : Pairs) (found : Option Tool)
    → ((dispatch_found P c name args found).status ≡ ToolStatus.blocked) ↔ (is_some found ≡ false)
blocked_iff P c name args none = (λ h. refl, λ h. refl)
blocked_iff P c name args (some tool) =
    (λ h. absurd (record_of-not_blocked name args (tool P c args) h), λ h. cc)

-- A request is recorded as blocked exactly when its name is not on the allowlist.
pub dispatch_tool-blocked_iff :
    (P : Platform) (c : Catalog) (name : String) (given : Option Pairs)
    → ((dispatch_tool P c name given).status ≡ ToolStatus.blocked) ↔ (is_allowed name ≡ false)
unfolding dispatch_tool is_allowed
dispatch_tool-blocked_iff P c name given =
    blocked_iff P c name (or_else given no_pairs) (lookup_tool name allowlist)

-- A name that is not on the allowlist runs nothing: the record is the same whatever the platform
-- and the catalog are, and is the one of a refusal.
pub dispatch_tool_off_registry :
    (P Q : Platform) (c d : Catalog) (name : String) (given : Option Pairs)
    → is_allowed name ≡ false
    → (dispatch_tool P c name given ≡ dispatch_tool Q d name given)
      × (dispatch_tool P c name given ≡ blocked_record name (or_else given no_pairs))
unfolding dispatch_tool is_allowed
dispatch_tool_off_registry P Q c d name given off =
    let missing = not_found (lookup_tool name allowlist) off in (rw missing, rw missing)

record_of-tool_name :
    (name : String) (args : Pairs) (r : Result Value) → (record_of name args r).tool_name ≡ name
record_of-tool_name name args (raised (type_error detail)) = refl
record_of-tool_name name args (raised (exception detail)) = refl
record_of-tool_name name args (ok result) = refl

found-tool_name :
    (P : Platform) (c : Catalog) (name : String) (args : Pairs) (o : Option Tool)
    → (dispatch_found P c name args o).tool_name ≡ name
found-tool_name P c name args none = refl
found-tool_name P c name args (some tool) = record_of-tool_name name args (tool P c args)

pub dispatch_tool-tool_name :
    (P : Platform) (c : Catalog) (name : String) (given : Option Pairs)
    → (dispatch_tool P c name given).tool_name ≡ name
unfolding dispatch_tool
dispatch_tool-tool_name P c name given =
    found-tool_name P c name (or_else given no_pairs) (lookup_tool name allowlist)

-- The names that may be called are the three of the catalog's queries.
pub is_allowed_iff :
    (name : String)
    → (is_allowed name ≡ true) ↔ (
        (name ≡ "check_order_status")
        ⊎ ((name ≡ "get_product_details") ⊎ (name ≡ "search_catalog")))
unfolding is_allowed
is_allowed_iff name = ground (
  arith,
  eq_iff "check_order_status" name,
  eq_iff "get_product_details" name,
  eq_iff "search_catalog" name,
)

-- The model is told of exactly the tools on the allowlist.
pub tool_schemas-is_allowed :
    (name : String)
    → any (λ (schema : ToolSchema). str_eq schema.name name) tool_schemas ≡ is_allowed name
unfolding is_allowed lookup_tool
tool_schemas-is_allowed name = ground arith
