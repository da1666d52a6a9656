-- ===== src/Graph/Client.antt =====
-- `LLMClient`: the four calls that the nodes make of a model. A model answers as it likes, may
-- raise, and may answer otherwise the next time, so each call goes through a state of the client.
use deskfleet_ticketwarden.Base.{String, Bool, Option, List}
use deskfleet_ticketwarden.Vocabulary.{Category}
use deskfleet_ticketwarden.Value.{Pairs}
use deskfleet_ticketwarden.Action.{Action}
use deskfleet_ticketwarden.Graph.State.{Fact}

-- `{"name": str, "args": dict}`
pub record ToolRequest : Type 0 where
  pub name : String
  pub args : Option Pairs

-- `{"approved": bool, "feedback": str}`
pub record Verdict : Type 0 where
  pub approved : Bool
  pub feedback : Option String

pub record LlmClient : Type 1 where
  pub Model : Type 0
  pub classify : String → Action Model String
  pub plan_research : String → Category → Option String → Action Model (List ToolRequest)
  pub draft : String → Category → List Fact → Option String → Action Model String
  pub review : String → String → List Fact → Action Model Verdict
