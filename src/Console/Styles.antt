-- ===== src/Console/Styles.antt =====
-- The tables of the console, and what it shows of a decision and of an event's type.
use deskfleet_ticketwarden.Base.{
  String, Option, none, some, replace, str_eq, or_else, text_or_empty, if◌then◌else◌,
}
use deskfleet_ticketwarden.Console.{Style, Example, Call}

abbrev pub resolved_style : Style
resolved_style = record { color = "#166534"; bg = "#dcfce7"; emoji = "✅"; label = "Resolved" }

abbrev pub escalate_style : Style
escalate_style = record { color = "#92400e"; bg = "#fef3c7"; emoji = "🧭"; label = "Escalated" }

abbrev pub refuse_style : Style
refuse_style = record { color = "#991b1b"; bg = "#fee2e2"; emoji = "🚫"; label = "Refused" }

abbrev pub default_style : Style
default_style = record { color = "#475569"; bg = "#f1f5f9"; emoji = "❔"; label = "Unknown" }

-- `DECISION_STYLES.get(decision)`
abbrev pub decision_styles : String → Option Style
decision_styles d =
    if str_eq d "RESOLVED"
    then some resolved_style
    else if str_eq d "ESCALATE"
    then some escalate_style
    else if str_eq d "REFUSE"
    then some refuse_style
    else none

-- `DECISION_STYLES.get(decision, DEFAULT_STYLE)`
abbrev pub style_of : String → Style
style_of d = or_else (decision_styles d) default_style

abbrev pub decision_pill : String → Call
decision_pill decision = Call.pill (style_of decision)

abbrev emoji_of : Option Style → String
emoji_of none = "🧭"
emoji_of (some s) = s.emoji

abbrev pub avatar_for : Option String → String
avatar_for decision = emoji_of (decision_styles (text_or_empty decision))

-- `EVENT_ICONS.get(event_type, "🛡\u{fe0f}")`
abbrev pub event_icon : String → String
event_icon t =
    if str_eq t "injection_refused"
    then "🚫"
    else if str_eq t "tool_blocked"
    then "🔒"
    else if str_eq t "tool_output_sanitized"
    then "🧼"
    else if str_eq t "outbound_leak_blocked"
    then "🕳\u{fe0f}"
    else "🛡\u{fe0f}"

abbrev pub example_label : Example → String
example_label Example.order_status = "📦 Order status"
example_label Example.refund_request = "💸 Refund request"
example_label Example.product_question = "🎒 Product question"
example_label Example.out_of_scope = "📣 Out of scope"
example_label Example.injection_attempt = "🛡\u{fe0f} Injection attempt"

-- The keys of `REFUND_REASONS`, and their values.
pub data RefundReason : Type 0 where
  wrong_size arrived_damaged changed_my_mind arrived_late other : RefundReason

abbrev pub refund_reasons : RefundReason → Option String
refund_reasons RefundReason.wrong_size = some "the item was the wrong size"
refund_reasons RefundReason.arrived_damaged = some "the item arrived damaged"
refund_reasons RefundReason.changed_my_mind = some "I changed my mind about the purchase"
refund_reasons RefundReason.arrived_late = some "the order arrived much later than expected"
refund_reasons RefundReason.other = none

-- `_event_label`, where `title` is `str.title`
unfoldable pub event_label : (String → String) → String → String
unfolding replace
event_label title event_type = title (replace "_" " " event_type)
