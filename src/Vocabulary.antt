-- ===== src/Vocabulary.antt =====
-- The enumerations (apps/api/src/constants.py) and their values, mirrored for the console in
-- packages/shared/constants.py.
use deskfleet_ticketwarden.Base.{
  String, Bool, true, false, Option, none, some, str_eq, if◌then◌else◌,
}

pub data Decision : Type 0 where
  resolved escalate refuse : Decision

pub data Category : Type 0 where
  order product refund other : Category

pub data ToolStatus : Type 0 where
  ok error blocked sanitized : ToolStatus

pub data SecurityEventType : Type 0 where
  injection_refused tool_blocked tool_output_sanitized outbound_leak_blocked : SecurityEventType

abbrev pub decision_value : Decision → String
decision_value Decision.resolved = "RESOLVED"
decision_value Decision.escalate = "ESCALATE"
decision_value Decision.refuse = "REFUSE"

abbrev pub category_value : Category → String
category_value Category.order = "order"
category_value Category.product = "product"
category_value Category.refund = "refund"
category_value Category.other = "other"

abbrev pub status_value : ToolStatus → String
status_value ToolStatus.ok = "ok"
status_value ToolStatus.error = "error"
status_value ToolStatus.blocked = "blocked"
status_value ToolStatus.sanitized = "sanitized"

abbrev pub event_value : SecurityEventType → String
event_value SecurityEventType.injection_refused = "injection_refused"
event_value SecurityEventType.tool_blocked = "tool_blocked"
event_value SecurityEventType.tool_output_sanitized = "tool_output_sanitized"
event_value SecurityEventType.outbound_leak_blocked = "outbound_leak_blocked"

abbrev pub is_resolved : Decision → Bool
is_resolved Decision.resolved = true
is_resolved _ = false

-- The member of `{c.value for c in Category}` that a text is, if it is one.
unfoldable pub category_of : String → Option Category
category_of s =
    if str_eq s "order"
    then some Category.order
    else if str_eq s "product"
    then some Category.product
    else if str_eq s "refund"
    then some Category.refund
    else if str_eq s "other"
    then some Category.other
    else none
