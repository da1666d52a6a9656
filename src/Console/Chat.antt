-- ===== src/Console/Chat.antt =====
-- The chat tab: one case is asked, answered and kept (`resolve_and_store`, `render_chat_tab`).
use deskfleet_ticketwarden.Base.{
  String, Option, none, some, List, [], ◌∷◌, ◌++◌, ◌<>◌, is_empty, truthy, if◌then◌else◌,
}
use mathlib.Core.List.{reverse}
use deskfleet_ticketwarden.Unicode.{Database}
use deskfleet_ticketwarden.Console.{
  CaseResult, Message, Example, Block, Call, Script, rerun, crash, display, pass, update,
  append_message, ◌>>◌,
}
use deskfleet_ticketwarden.Console.Styles.{avatar_for}
use deskfleet_ticketwarden.Console.Api.{Api, api_post, if_error}
use deskfleet_ticketwarden.Console.Result.{Formats, decided, render_result}
use deskfleet_ticketwarden.Console.Forms.{FormInput, examples_row, render_active_example_form}

-- The greeting of a new answer.
abbrev celebrate : CaseResult → List Call
celebrate r =
    if decided r.decision "RESOLVED"
    then Call.toast "Case resolved" "✅" ∷ Call.balloons ∷ []
    else if decided r.decision "ESCALATE"
    then Call.toast "Escalated to a human agent" "🧭" ∷ []
    else if decided r.decision "REFUSE"
    then Call.toast "Refused by guardrails" "🚫" ∷ []
    else []

abbrev could_not_resolve : String → Call
could_not_resolve e = Call.error ("Couldn't resolve that case: " <> e)

abbrev user_turn : List Call → List Call
user_turn calls = Call.opens_chat "user" "🧑\u{200d}💼" ∷ calls ++ Call.closes ∷ []

-- The first message that passes a test, from the last one back.
abbrev pub last_asked : List Message → Option (String × Option String)
last_asked [] = none
last_asked (Message.asked text order_id ∷ older) = some (text, order_id)
last_asked (Message.answered r ∷ older) = last_asked older
last_asked (Message.failed e ∷ older) = last_asked older

abbrev pub last_reply : List Message → Option Message
last_reply [] = none
last_reply (Message.asked text order_id ∷ older) = last_reply older
last_reply (Message.answered r ∷ older) = some (Message.answered r)
last_reply (Message.failed e ∷ older) = some (Message.failed e)

abbrev order_caption : Option String → List Call
order_caption none = []
order_caption (some order_id) = Call.caption ("Order ID: " <> order_id) ∷ []

abbrev pub show_asked : Option (String × Option String) → Script
show_asked none = pass
show_asked (some (text, order_id)) =
    display (user_turn (Call.write text ∷ order_caption (truthy order_id)))

-- What is asked now: the case that is queued, or else the prompt.
abbrev pub next_case :
    Option (String × Option String) → Option String → Option (String × Option String)
next_case (some ticket) prompt = some ticket
next_case none none = none
next_case none (some text) = some (text, none)

module _ (F : Formats) where
  abbrev pub show_reply : Option Message → Script
  show_reply (some (Message.answered r)) =
      display (
        Call.opens_chat "assistant" (avatar_for r.decision) ∷ render_result F r ++ Call.closes ∷ [])
  show_reply (some (Message.failed e)) =
      if is_empty e
      then crash
      else display
          (Call.opens_chat "assistant" (avatar_for none) ∷ could_not_resolve e ∷ Call.closes ∷ [])
  show_reply _ = pass

  unfoldable pub last_turn : Script
  unfolding render_result
  last_turn s =
      (show_asked (last_asked (reverse s.messages)) >> show_reply (last_reply (reverse s.messages)))
        s

  module _ (api : Api) where
    abbrev on_error : String → Script
    on_error e =
        display (could_not_resolve e ∷ Call.toast "Couldn't reach the API" "⚠\u{fe0f}" ∷ [])
        >> append_message (Message.failed e)

    abbrev on_result : CaseResult → Script
    on_result r = display (celebrate r ++ render_result F r) >> append_message (Message.answered r)

    unfoldable pub resolve_and_store : String × Option String → Script
    unfolding api_post render_result
    resolve_and_store (ticket, order_id) =
        append_message (Message.asked ticket order_id)
        >> display (
            Call.opens_chat "assistant" "🧭"
            ∷ Call.opens_spinner "TicketWarden agents are working on this case…"
            ∷ Call.closes
            ∷ [])
        >> if_error (api_post api.status_error (api.resolve ticket (truthy order_id))) on_error
            on_result
        >> display (Call.closes ∷ [])

    abbrev submit : String × Option String → Script
    submit (text, order_id) =
        display (user_turn (Call.write text ∷ [])) >> resolve_and_store (text, order_id) >> rerun

    abbrev pub show_turn : Option (String × Option String) → Script
    show_turn none = last_turn
    show_turn (some ticket) = submit ticket

    -- The case that is queued is taken off the session.
    unfoldable pub next_turn : Option String → Script
    unfolding resolve_and_store last_turn
    next_turn prompt s =
        (update (λ t. record t { queued_ticket = none })
            >> show_turn (next_case s.queued_ticket (truthy prompt)))
          s

    unfoldable pub render_chat_tab : Database → Option Example → FormInput → Option String → Script
    unfolding render_active_example_form next_turn
    render_chat_tab u pressed form prompt =
        display (Call.block Block.welcome ∷ [])
        >> examples_row pressed
        >> render_active_example_form u form
        >> next_turn prompt
