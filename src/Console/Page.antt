-- ===== src/Console/Page.antt =====
-- The sidebar and the whole page (`session_stats`, `sidebar`, `main`).
use deskfleet_ticketwarden.Base.{
  ℕ, ◌+◌, String, Bool, Option, none, some, List, [], ◌∷◌, ◌<>◌, str_eq, if◌then◌else◌,
}
use deskfleet_ticketwarden.Unicode.{Database}
use deskfleet_ticketwarden.Console.{
  Message, Session, Example, Block, Call, Script, rerun, display, pass, update, ◌>>◌,
}
use deskfleet_ticketwarden.Console.Api.{Api, Health, api_get, if_error}
use deskfleet_ticketwarden.Console.Result.{Formats}
use deskfleet_ticketwarden.Console.Forms.{FormInput}
use deskfleet_ticketwarden.Console.Chat.{render_chat_tab}
use deskfleet_ticketwarden.Console.Tabs.{render_recent_cases_tab, render_security_tab}

-- The counts of `session_stats`, under their keys.
pub record Stats : Type 0 where
  pub resolved : ℕ
  pub escalate : ℕ
  pub refuse : ℕ

abbrev pub no_stats : Stats
no_stats = record { resolved = 0; escalate = 0; refuse = 0 }

-- `if decision in counts: counts[decision] += 1`
abbrev pub add_decision : Option String → Stats → Stats
add_decision none k = k
add_decision (some d) k =
    if str_eq d "RESOLVED"
    then record k { resolved = k.resolved + 1 }
    else if str_eq d "ESCALATE"
    then record k { escalate = k.escalate + 1 }
    else if str_eq d "REFUSE"
    then record k { refuse = k.refuse + 1 }
    else k

abbrev pub decision_of_message : Message → Option String
decision_of_message (Message.asked text order_id) = none
decision_of_message (Message.answered r) = r.decision
decision_of_message (Message.failed e) = none

unfoldable pub stats_from : Stats → List Message → Stats
stats_from k [] = k
stats_from k (m ∷ ms) = stats_from (add_decision (decision_of_message m) k) ms

unfoldable pub session_stats : Session → Stats
unfolding stats_from
session_stats s = stats_from no_stats s.messages

abbrev health_status : Health → Call
health_status h = Call.status (if h.llm_configured then "#166534" else "#92400e") (
    "API online · "
    <> (if h.llm_configured then "live LLM" else "demo mode (no key)")
    <> (if h.tracing_enabled then " · tracing on" else ""))

abbrev show_stats : Stats → List Call
show_stats k =
    Call.stat "✅" "#166534" k.resolved "Resolved"
    ∷ Call.stat "🧭" "#92400e" k.escalate "Escalated"
    ∷ Call.stat "🚫" "#991b1b" k.refuse "Refused"
    ∷ []

abbrev show_session : Script
show_session s =
    display (Call.divider ∷ Call.write "**This session**" ∷ show_stats (session_stats s)) s

unfoldable pub sidebar : Api → Bool → Script
unfolding api_get session_stats
sidebar api cleared =
    display (Call.block Block.brand ∷ Call.caption "Multi-agent support case warden" ∷ [])
    >> if_error (api_get api.status_error api.health)
        (λ e. display (Call.status "#991b1b" ("API unreachable at " <> api.url) ∷ []))
        (λ h. display (health_status h ∷ []))
    >> show_session
    >> display (Call.divider ∷ [])
    >> (if cleared then update (λ s. record s { messages = [] }) >> rerun else pass)
    >> display (
        Call.divider
        ∷ Call.caption "Capstone project · Snehal Dmello\n\niHub DivyaSampark @ IIT Roorkee × Masai"
        ∷ [])

-- What the user did since the last run.
pub record Inputs : Type 0 where
  pub cleared : Bool
  pub example : Option Example
  pub form : FormInput
  pub prompt : Option String
  pub decision_filter : String
  pub limit : ℕ
  pub refresh : Bool
  pub type_filter : String

module _ (u : Database) (F : Formats) where
  -- One run of the script, once the session has its three keys.
  unfoldable pub main : Api → Inputs → Script
  unfolding sidebar render_chat_tab render_recent_cases_tab render_security_tab
  main api inputs =
      sidebar api inputs.cleared
      >> display (Call.block Block.header ∷ [])
      >> render_chat_tab F api u inputs.example inputs.form inputs.prompt
      >> render_recent_cases_tab F api inputs.decision_filter inputs.limit inputs.refresh
      >> render_security_tab F.title api inputs.type_filter
      >> display (Call.block Block.footer ∷ [])
