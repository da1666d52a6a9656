-- ===== src/Registry.antt =====
-- The tool allowlist and its dispatch (apps/api/src/store/registry.py).
pub mod Laws
pub mod Schemas
use deskfleet_ticketwarden.Base.{
  String, Bool, true, false, ◌&&◌, Option, none, some, List, [], ◌∷◌, str_eq, one_of, is_some,
  or_else, if◌then◌else◌,
}
use deskfleet_ticketwarden.Vocabulary.{ToolStatus}
use deskfleet_ticketwarden.Action.{Result, ok, raised, Raised, type_error, exception, message}
use deskfleet_ticketwarden.Platform.{Platform}
use deskfleet_ticketwarden.Value.{Value, null, text, dict, Pairs, no_pairs, pair, get, is_truthy}
use deskfleet_ticketwarden.Catalog.{check_order_status, get_product_details, search_catalog}
use deskfleet_ticketwarden.Catalog.Tables.{Catalog}

-- The audit record of one request for a tool.
pub record ToolRecord : Type 0 where
  pub tool_name : String
  pub args : Pairs
  pub result : Value
  pub status : ToolStatus

-- A tool, called with keyword arguments.
abbrev pub Tool : Type 0
Tool = Platform → Catalog → Pairs → Result Value

-- Every keyword is a parameter.
abbrev keywords_in : List String → Pairs → Bool
keywords_in names no_pairs = true
keywords_in names (pair k v d) = one_of k names && keywords_in names d

-- `f(**args)` for a function with one parameter that has no default
abbrev pub call_one : String → String → (Value → Result Value) → Platform → Pairs → Result Value
call_one tool parameter f P args =
    if keywords_in (parameter ∷ []) args
    then elim (get parameter args) [
      | none ↦ raised (type_error (P.signature_error tool args))
      | some v ↦ f v
    ]
    else raised (type_error (P.signature_error tool args))

-- `search_catalog(**args)`, with the defaults `query=""` and `category=None`
abbrev pub call_search : Tool
call_search P c args =
    if keywords_in ("query" ∷ "category" ∷ []) args
    then search_catalog P c (or_else (get "query" args) (text ""))
        (or_else (get "category" args) null)
    else raised (type_error (P.signature_error "search_catalog" args))

-- `ALLOWLIST`
abbrev pub allowlist : List (String × Tool)
allowlist =
    (
      "check_order_status",
      λ P c. call_one "check_order_status" "order_id" (check_order_status P c) P,
    )
    ∷ (
      "get_product_details",
      λ P c. call_one "get_product_details" "product_id" (get_product_details P c) P,
    )
    ∷ ("search_catalog", call_search)
    ∷ []

unfoldable pub lookup_tool : String → List (String × Tool) → Option Tool
lookup_tool name [] = none
lookup_tool name ((n, tool) ∷ tools) = if str_eq n name then some tool else lookup_tool name tools

unfoldable pub is_allowed : String → Bool
unfolding lookup_tool
is_allowed name = is_some (lookup_tool name allowlist)

-- `isinstance(result, dict) and result.get("error")`
abbrev pub reports_error : Value → Bool
reports_error (dict d) = elim (get "error" d) [ none ↦ false | some v ↦ is_truthy v ]
reports_error _ = false

abbrev error_detail : String → String → Value
error_detail error detail = dict (pair "error" (text error) (pair "detail" (text detail) no_pairs))

-- The record of a call that ended, by how it ended.
abbrev pub record_of : String → Pairs → Result Value → ToolRecord
record_of name args (raised (type_error detail)) = record {
  tool_name = name;
  args = args;
  result = error_detail "bad_arguments" detail;
  status = ToolStatus.error;
}
record_of name args (raised (exception detail)) = record {
  tool_name = name;
  args = args;
  result = error_detail "tool_exception" detail;
  status = ToolStatus.error;
}
record_of name args (ok result) = record {
  tool_name = name;
  args = args;
  result = result;
  status = if reports_error result then ToolStatus.error else ToolStatus.ok;
}

abbrev pub blocked_record : String → Pairs → ToolRecord
blocked_record name args = record {
  tool_name = name;
  args = args;
  result = dict (pair "error" (text "tool_not_allowlisted") no_pairs);
  status = ToolStatus.blocked;
}

-- The call of a tool that was found, or the record of a refusal.
abbrev pub dispatch_found : Platform → Catalog → String → Pairs → Option Tool → ToolRecord
dispatch_found P c name args none = blocked_record name args
dispatch_found P c name args (some tool) = record_of name args (tool P c args)

unfoldable pub dispatch_tool : Platform → Catalog → String → Option Pairs → ToolRecord
dispatch_tool P c name given =
    dispatch_found P c name (or_else given no_pairs) (lookup_tool name allowlist)
