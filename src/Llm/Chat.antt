-- ===== src/Llm/Chat.antt =====
-- `ChatLLMClient` (graph/llm.py) over a chat model of LangChain, as an implementation of the
-- interface that the nodes use.
use deskfleet_ticketwarden.Base.{String, Option, some, List, map, or_else, text_or_empty}
use deskfleet_ticketwarden.Action.{Action, Result, ok, raised, pure, ◌>>=◌}
use deskfleet_ticketwarden.Settings.{Settings}
use deskfleet_ticketwarden.Platform.{Platform, strip}
use deskfleet_ticketwarden.Vocabulary.{Category, category_of, category_value}
use deskfleet_ticketwarden.Value.{no_pairs}
use deskfleet_ticketwarden.Registry.Schemas.{ToolSchema, tool_schemas}
use deskfleet_ticketwarden.Graph.State.{Fact}
use deskfleet_ticketwarden.Graph.Client.{ToolRequest, Verdict, LlmClient}
use deskfleet_ticketwarden.Llm.Provider.{structured_output_method}
use deskfleet_ticketwarden.Llm.Prompts.{
  Message, classify_messages, research_messages, draft_messages, review_messages,
}

-- A chat model: a plain call gives the message's content, one with tools the calls that the model
-- wants, a structured one the fields of the class that is asked for.
pub record Chat : Type 1 where
  pub State : Type 0
  pub content : List Message → Action State (Option String)
  pub tool_calls : List ToolSchema → List Message → Action State (List ToolRequest)
  pub classification : String → List Message → Action State String
  pub verdict : String → List Message → Action State Verdict

-- What the client uses of Python and of the settings.
pub record Setup : Type 0 where
  pub platform : Platform
  pub settings : Settings
  -- `str.lower`
  pub lower : String → String
  -- `urlparse(url).hostname`
  pub hostname : String → Result (Option String)
  -- `f"{facts}"`
  pub show_facts : List Fact → String

module _ (u : Setup) (chat : Chat) where
  -- The strategy is chosen before a structured call.
  abbrev pub with_method : {A : Type 0} → (String → Action chat.State A) → Action chat.State A
  with_method call m = elim (structured_output_method u.lower u.settings u.hostname) [
    | raised e ↦ (raised e, m)
    | ok method ↦ call method m
  ]

  -- `cat if cat in {c.value for c in Category} else "other"`
  abbrev pub known_category : String → String
  known_category cat = category_value (or_else (category_of cat) Category.other)

  unfoldable pub classify : String → Action chat.State String
  unfolding structured_output_method
  classify ticket = do
    category ← with_method (λ method. chat.classification method (classify_messages ticket))
    pure (known_category (u.lower (strip u.platform.unicode category)))

  -- `tc.get("args", {})`
  abbrev pub call_of : ToolRequest → ToolRequest
  call_of tc = record tc { args = some (or_else tc.args no_pairs) }

  unfoldable pub plan_research :
      String → Category → Option String → Action chat.State (List ToolRequest)
  plan_research ticket category order_id = do
    calls ← chat.tool_calls tool_schemas (research_messages ticket category order_id)
    pure (map call_of calls)

  unfoldable pub draft : String → Category → List Fact → Option String → Action chat.State String
  draft ticket category facts feedback = do
    content ← chat.content (draft_messages u.show_facts ticket category facts feedback)
    pure (strip u.platform.unicode (text_or_empty content))

  unfoldable pub review : String → String → List Fact → Action chat.State Verdict
  unfolding structured_output_method
  review ticket reply facts = do
    result ←
        with_method
          (λ method. chat.verdict method (review_messages u.show_facts ticket reply facts))
    pure (record result { feedback = some (text_or_empty result.feedback) })

  abbrev pub chat_client : LlmClient
  chat_client = record {
    Model = chat.State;
    classify = classify;
    plan_research = plan_research;
    draft = draft;
    review = review;
  }
