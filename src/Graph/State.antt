-- ===== src/Graph/State.antt =====
-- `CaseState`: the keys that nodes read and write. An absent key reads as `None`, an absent list as
-- the empty one and an absent count as 0, as the code's `get` calls have it.
use deskfleet_ticketwarden.Base.{ℕ, String, Option, List}
use deskfleet_ticketwarden.Vocabulary.{Category, Decision}
use deskfleet_ticketwarden.Value.{Value, Pairs}
use deskfleet_ticketwarden.Registry.{ToolRecord}

-- `{"tool": name, "args": args, "data": sanitized}`
pub record Fact : Type 0 where
  pub tool : String
  pub args : Pairs
  pub found : Value

pub record CaseState : Type 0 where
  pub ticket_id : String
  pub ticket : String
  pub order_id : Option String
  pub category : Option Category
  pub facts : List Fact
  pub draft : Option String
  pub review_feedback : Option String
  pub decision : Option Decision
  pub escalation_reason : Option String
  pub iterations : ℕ
  pub tool_calls : List ToolRecord
