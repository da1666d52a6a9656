-- ===== src/Tests/Tools.antt =====
-- Requests for tools on the fixture catalog.
use deskfleet_ticketwarden.Base.{String, ◌≡◌, ◌↔◌, ◌⊎◌, refl, none, some, true, false, or_else}
use deskfleet_ticketwarden.Vocabulary.{ToolStatus}
use deskfleet_ticketwarden.Value.{text, Pairs, no_pairs, pair}
use deskfleet_ticketwarden.Catalog.{check_order_status}
use deskfleet_ticketwarden.Registry.{dispatch_tool, is_allowed, blocked_record, lookup_tool}
use deskfleet_ticketwarden.Registry.Laws.{
  dispatch_tool-blocked_iff, dispatch_tool_off_registry, is_allowed_iff,
}
use deskfleet_ticketwarden.Tests.Fixtures.{platform, catalog}

abbrev order_two : Pairs
order_two = pair "order_id" (text " 2 ") no_pairs

dispatch_tool-blocked_iff_example :
    ((dispatch_tool platform catalog "drop_table" none).status ≡ ToolStatus.blocked)
    ↔ (is_allowed "drop_table" ≡ false)
dispatch_tool-blocked_iff_example = dispatch_tool-blocked_iff platform catalog "drop_table" none

dispatch_tool_off_registry_run :
    (dispatch_tool platform catalog "drop_table" (some order_two)
      ≡ dispatch_tool platform catalog "drop_table" (some order_two))
    × (dispatch_tool platform catalog "drop_table" (some order_two)
        ≡ blocked_record "drop_table" (or_else (some order_two) no_pairs))
unfolding is_allowed
dispatch_tool_off_registry_run =
    dispatch_tool_off_registry platform platform catalog catalog "drop_table" (some order_two) refl

abbrev wanted : String
wanted = "search_catalog"

is_allowed_iff_run : (is_allowed wanted ≡ true) ↔ (
    (wanted ≡ "check_order_status")
    ⊎ ((wanted ≡ "get_product_details") ⊎ (wanted ≡ "search_catalog")))
is_allowed_iff_run = is_allowed_iff wanted

found_two :
    (dispatch_tool platform catalog "check_order_status" (some order_two)).status ≡ ToolStatus.ok
unfolding dispatch_tool lookup_tool check_order_status
found_two = refl

-- An order that is not there is reported by the tool, and recorded as an error.
missing_order :
    (dispatch_tool platform catalog "check_order_status"
      (some (pair "order_id" (text "99") no_pairs))).status
    ≡ ToolStatus.error
unfolding dispatch_tool lookup_tool check_order_status
missing_order = refl

-- A keyword that the tool does not have.
bad_keyword :
    (dispatch_tool platform catalog "check_order_status"
      (some (pair "id" (text "2") no_pairs))).status
    ≡ ToolStatus.error
unfolding dispatch_tool lookup_tool check_order_status
bad_keyword = refl
