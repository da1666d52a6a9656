-- ===== src/Llm/Laws.antt =====
-- The production client (graph/llm.py): its configuration, its fence, and its use by the graph.
use text.Mathlib.TextLemmas.{append_assoc}
use deskfleet_ticketwarden.Base.{◌≡◌, refl, String, some, List, ◌<>◌, or_else}
use deskfleet_ticketwarden.Action.{Action, ok}
use deskfleet_ticketwarden.Settings.{Settings}
use deskfleet_ticketwarden.Vocabulary.{Category, category_value, category_of}
use deskfleet_ticketwarden.Catalog.Tables.{Catalog}
use deskfleet_ticketwarden.Registry.Schemas.{ToolSchema}
use deskfleet_ticketwarden.Graph.Research.{Yields, Yields-bind}
use deskfleet_ticketwarden.Graph.Termination.{Returns}
use deskfleet_ticketwarden.Llm.Provider.{
  ChatModel, chat_open_ai, chat_anthropic, chat_google, structured_output_method,
}
use deskfleet_ticketwarden.Llm.Prompts.{Message, fence, classify_messages}
use deskfleet_ticketwarden.Llm.Chat.{Chat, Setup, classify, with_method}

-- The key that a model is built with.
abbrev pub key_of : ChatModel → String
key_of (chat_open_ai model t url key) = key
key_of (chat_anthropic model t key) = key
key_of (chat_google model t key) = key

-- The end marker in a ticket is not escaped: what follows it stands behind a complete fence.
fence_escape :
    (before after : String)
    → fence (before <> ("\n<<<END_CASE>>>" <> after))
      ≡ fence before <> (after <> "\n<<<END_CASE>>>")
unfolding fence
fence_escape before after = simp append_assoc

category_of-value : (c : Category) → category_of (category_value c) ≡ some c
unfolding category_of
category_of-value Category.order = refl
category_of-value _ = refl

module _ (u : Setup) (chat : Chat) where
  -- Whatever the chat model answers, a classification that comes back is the name of one of the
  -- categories, which the classifier node keeps as it is.
  pub classify-category_of :
      (ticket : String) (m : chat.State)
      → Yields
          (λ (answer : String). (c : Category) × (category_of answer ≡ some c))
          (classify u chat ticket m)
  unfolding classify
  classify-category_of ticket m =
      Yields-bind _
        (with_method u chat (λ method. chat.classification method (classify_messages ticket))) _ m
        λ category m'. (_, category_of-value (or_else (category_of _) Category.other))

  -- A chat model whose calls never raise.
  pub record Answers : Type 0 where
    pub content : (ms : List Message) (m : chat.State) → Returns (chat.content ms m)
    pub tool_calls :
        (tools : List ToolSchema) (ms : List Message) (m : chat.State)
        → Returns (chat.tool_calls tools ms m)
    pub classification :
        (method : String) (ms : List Message) (m : chat.State)
        → Returns (chat.classification method ms m)
    pub verdict :
        (method : String) (ms : List Message) (m : chat.State) → Returns (chat.verdict method ms m)
    -- the address in the settings can be parsed
    pub hostname :
        (method : String) × (structured_output_method u.lower u.settings u.hostname ≡ ok method)
