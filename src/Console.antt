-- ===== src/Console.antt =====
-- The support console (apps/ui/app.py): a run of the script is a function of the session, of what
-- the user did since the last run and of what the API answers. It yields the session that it
-- leaves, the calls of Streamlit that show something, and how it ends.
pub mod Styles
pub mod Api
pub mod Result
pub mod Forms
pub mod Chat
pub mod Tabs
pub mod Page
pub mod Turns
pub mod Sending
pub mod Pairing
pub mod Runs
pub mod Submission
pub mod Tally
pub mod Served
use deskfleet_ticketwarden.Base.{ℕ, String, Bool, true, false, Option, none, List, [], ◌∷◌, ◌++◌}
use deskfleet_ticketwarden.Value.{Value}

-- The JSON of a tool call, and of the answer to `POST /resolve`: `none` is a key that is missing, or
-- null where the key is read without a default.
pub record ToolEntry : Type 0 where
  pub tool_name : Option String
  pub status : Option String
  pub args : Value
  pub result : Value

pub record CaseResult : Type 0 where
  pub ticket_id : Option String
  pub decision : Option String
  pub reply : Option String
  pub category : Option String
  pub escalation_reason : Option String
  pub iterations : Option ℕ
  pub tool_calls : Option (List ToolEntry)
  pub langsmith_trace_url : Option String
  -- in nanoseconds, and in 10⁻⁸ USD
  pub latency : Option ℕ
  pub cost_usd : Option ℕ

-- `EXAMPLE_LABELS`
pub data Example : Type 0 where
  order_status refund_request product_question out_of_scope injection_attempt : Example

-- An entry of `messages`; its time is never read.
pub data Message : Type 0 where
  asked : String → Option String → Message
  answered : CaseResult → Message
  failed : String → Message

-- `st.session_state`
pub record Session : Type 0 where
  pub messages : List Message
  pub queued_ticket : Option (String × Option String)
  pub active_example : Option Example

abbrev pub new_session : Session
new_session = record { messages = []; queued_ticket = none; active_example = none }

-- An entry of `DECISION_STYLES`.
pub record Style : Type 0 where
  pub color : String
  pub bg : String
  pub emoji : String
  pub label : String

-- The blocks of markup that are always the same.
pub data Block : Type 0 where
  brand header welcome footer : Block

-- A call of Streamlit that shows something; `write` is `st.write`, or `st.markdown` of a text. A block
-- of markup is named, with the texts that are put into it; `with` is a call that opens and `closes`.
-- The widgets that read an input are left out.
pub data Call : Type 0 where
  write caption info warning error : String → Call
  toast : String → String → Call
  balloons divider closes : Call
  opens_chat : String → String → Call
  opens_expander opens_spinner : String → Call
  block : Block → Call
  pill : Style → Call
  chips : List String → Call
  dataframe : List ToolEntry → Call
  link_button : String → String → Call
  status : String → String → Call
  stat : String → String → ℕ → String → Call
  case_card : Style → String → String → Call
  event_card : String → String → String → String → String → Call
  type_options : List String → Call

-- How a script ends: at its last line, by `st.rerun()`, or by an exception that it does not catch.
pub data Flow : Type 0 where
  goes_on reruns crashes : Flow

pub record Run : Type 0 where
  pub flow : Flow
  pub session : Session
  pub shown : List Call

abbrev pub Script : Type 0
Script = Session → Run

abbrev pub pass : Script
pass s = record { flow = Flow.goes_on; session = s; shown = [] }

abbrev pub rerun : Script
rerun s = record { flow = Flow.reruns; session = s; shown = [] }

abbrev pub crash : Script
crash s = record { flow = Flow.crashes; session = s; shown = [] }

abbrev pub display : List Call → Script
display calls s = record { flow = Flow.goes_on; session = s; shown = calls }

abbrev pub update : (Session → Session) → Script
update f s = record { flow = Flow.goes_on; session = f s; shown = [] }

abbrev pub after : Run → Script → Run
after r q = elim r.flow [
  | Flow.goes_on ↦
      let r' = q r.session in
      record { flow = r'.flow; session = r'.session; shown = r.shown ++ r'.shown }
  | Flow.reruns ↦ r
  | Flow.crashes ↦ r
]

-- One statement after the other.
infixr 20 ◌>>◌
abbrev pub ◌>>◌ : Script → Script → Script
(p >> q) s = after (p s) q

abbrev pub append_message : Message → Script
append_message m = update (λ s. record s { messages = s.messages ++ m ∷ [] })
