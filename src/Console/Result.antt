-- ===== src/Console/Result.antt =====
-- How the console shows an answer (`render_result`).
use deskfleet_ticketwarden.Base.{
  ℕ, String, Bool, false, Option, none, some, List, [], ◌∷◌, ◌++◌, ◌<>◌, str_eq, or_else, show,
  truthy, length, count, ltb, if◌then◌else◌,
}
use deskfleet_ticketwarden.Console.{CaseResult, ToolEntry, Call}
use deskfleet_ticketwarden.Console.Styles.{decision_pill}

-- `str.title`, and the decimals of a number of milliseconds (`:.0f`) and of dollars (`:.6f`).
pub record Formats : Type 0 where
  pub title : String → String
  pub milliseconds : ℕ → String
  pub dollars : ℕ → String

-- `o or d` on a text
abbrev pub text_or : Option String → String → String
text_or o d = or_else (truthy o) d

abbrev is_value : String → Option String → Bool
is_value d none = false
is_value d (some e) = str_eq e d

-- `o == d`, where `o` may be `None`
abbrev pub decided : Option String → String → Bool
decided o d = is_value d o

abbrev draft_expander : Option String → List Call
draft_expander none = []
draft_expander (some reply) =
    Call.opens_expander "Draft prepared before escalation" ∷ Call.write reply ∷ Call.closes ∷ []

-- What is written below the badge.
abbrev pub verdict : CaseResult → List Call
verdict r =
    let d = or_else r.decision "?" in
    if str_eq d "RESOLVED"
    then Call.write (text_or r.reply "_(empty reply)_") ∷ []
    else if str_eq d "ESCALATE"
    then Call.write ("**Escalated to a human agent.** " <> text_or r.escalation_reason "")
      ∷ draft_expander (truthy r.reply)
    else if str_eq d "REFUSE"
    then Call.write
        ("**Request refused.** " <> text_or r.escalation_reason "Blocked by guardrails.")
      ∷ []
    else Call.write "_Unexpected response from the API._" ∷ []

abbrev result_chips : Formats → CaseResult → Call
result_chips F r = Call.chips (
    ("🏷\u{fe0f} " <> F.title (text_or r.category "n/a"))
    ∷ ("🔁 " <> show (or_else r.iterations 0) <> " review pass(es)")
    ∷ ("⏱\u{fe0f} " <> F.milliseconds (or_else r.latency 0) <> " ms")
    ∷ ("💰 $" <> F.dollars (or_else r.cost_usd 0))
    ∷ [])

abbrev pub has_status : String → ToolEntry → Bool
has_status s c = decided c.status s

-- ` · {n} {word}`, unless `n` is 0
abbrev suffix : String → ℕ → String
suffix word n = if ltb 0 n then " · " <> show n <> " " <> word else ""

abbrev pub tool_log_label : List ToolEntry → String
tool_log_label calls =
    "🛠\u{fe0f} Tool-call log ("
    <> show (length calls)
    <> ")"
    <> suffix "blocked" (count (has_status "blocked") calls)
    <> suffix "sanitized" (count (has_status "sanitized") calls)

abbrev pub tool_log : List ToolEntry → List Call
tool_log [] = []
tool_log (c ∷ calls) =
    Call.opens_expander (tool_log_label (c ∷ calls)) ∷ Call.dataframe (c ∷ calls) ∷ Call.closes ∷ []

abbrev trace_link : Option String → List Call
trace_link none = []
trace_link (some url) = Call.link_button "🔗 View LangSmith trace" url ∷ []

unfoldable pub render_result : Formats → CaseResult → List Call
unfolding show
render_result F r =
    decision_pill (or_else r.decision "?") ∷ verdict r
    ++ result_chips F r ∷ tool_log (or_else r.tool_calls [])
    ++ trace_link (truthy r.langsmith_trace_url)
    ++ Call.caption ("Case `" <> or_else r.ticket_id "?" <> "`") ∷ []
