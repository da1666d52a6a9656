-- ===== src/Console/Turns.antt =====
-- A case that is queued, followed to its answer.
use mathlib.Core.List.{append_assoc}
use deskfleet_ticketwarden.Unicode.{Database}
use deskfleet_ticketwarden.Base.{
  String, false, Option, none, some, List, [], ◌∷◌, ◌++◌, ◌≡◌, refl, is_empty, truthy,
}
use deskfleet_ticketwarden.Console.{CaseResult, Message, Session, Example, Flow, Run, Script, ◌>>◌}
use deskfleet_ticketwarden.Console.Api.{Health, Api, Fetched, api_get, api_post}
use deskfleet_ticketwarden.Console.Result.{Formats}
use deskfleet_ticketwarden.Console.Forms.{choose, FormInput, render_active_example_form, open_form}
use deskfleet_ticketwarden.Console.Chat.{resolve_and_store, next_turn, render_chat_tab}
use deskfleet_ticketwarden.Console.Page.{Inputs, sidebar, main}

-- An error has a text.
abbrev pub HasText : {A : Type 0} → Fetched A → Type 0
HasText (Fetched.got body) = Unit
HasText (Fetched.wrong e) = is_empty e ≡ false

-- The message that keeps an answer.
abbrev pub message_of : Fetched CaseResult → Message
message_of (Fetched.got r) = Message.answered r
message_of (Fetched.wrong e) = Message.failed e

-- A run that ends in this way with this session, whatever it shows.
abbrev pub Ends : Flow → Session → Run → Type 0
Ends f s r = (r.flow ≡ f) × (r.session ≡ s)

pub Ends-then :
    (p q : Script) {s t v : Session} {f : Flow}
    → Ends Flow.goes_on t (p s)
    → Ends f v (q t)
    → Ends f v ((p >> q) s)
Ends-then p q (flow, session) (flow', session') =
    (rw (flow, session) flow', rw (flow, session) session')

pub Ends-stop :
    (p q : Script) {s t : Session} → Ends Flow.reruns t (p s) → Ends Flow.reruns t ((p >> q) s)
Ends-stop p q (flow, session) = (rw flow refl, rw flow session)

pub append_two {ℓ} :
    {A : Type ℓ} (xs : List A) (x y : A) → (xs ++ x ∷ []) ++ y ∷ [] ≡ xs ++ x ∷ y ∷ []
append_two xs x y = append_assoc xs (x ∷ []) (y ∷ [])

module _ (F : Formats) (api : Api) where
  abbrev pub fetched : String → Option String → Fetched CaseResult
  fetched text order_id = api_post api.status_error (api.resolve text (truthy order_id))

  pub resolve_and_store_got :
      (text : String) (order_id : Option String) (s : Session) (x : Fetched CaseResult)
      → fetched text order_id ≡ x
      → HasText x
      → Ends Flow.goes_on
          (record s {
            messages = (s.messages ++ Message.asked text order_id ∷ []) ++ message_of x ∷ [];
          })
          (resolve_and_store F api (text, order_id) s)
  unfolding resolve_and_store
  resolve_and_store_got text order_id s (Fetched.got r) h k = (rw h refl, rw h refl)
  resolve_and_store_got text order_id s (Fetched.wrong e) h k = (rw (h, k) refl, rw (h, k) refl)

  -- The session once a case was answered.
  abbrev pub with_turn : String → Option String → Message → Session → Session
  with_turn text order_id m s = record s {
    messages = (s.messages ++ Message.asked text order_id ∷ []) ++ m ∷ [];
  }

  next_turn_queued :
      (text : String) (order_id : Option String) (prompt : Option String) (s : Session)
      → s.queued_ticket ≡ some (text, order_id)
      → HasText (fetched text order_id)
      → Ends Flow.reruns
          (with_turn text order_id
            (message_of (fetched text order_id))
            (record s { queued_ticket = none }))
          (next_turn F api prompt s)
  unfolding next_turn
  next_turn_queued text order_id prompt s q h =
      let (flow, session) =
        resolve_and_store_got text order_id (record s { queued_ticket = none })
          (fetched text order_id) refl h in
      (rw (next_turn, q, flow) refl, rw (next_turn, q, flow, session) refl)

abbrev pub IsIdle : FormInput → Type 0
IsIdle form = (form.cancelled ≡ false) × (form.submitted ≡ false)

open_form_idle :
    (u : Database) (form : FormInput) (e : Option Example) (s : Session)
    → IsIdle form
    → Ends Flow.goes_on s (open_form u form e s)
open_form_idle u form none s (c, b) = (refl, refl)
open_form_idle u form (some e) s (c, b) = (rw (c, b) refl, rw (c, b) refl)

form_idle :
    (u : Database) (form : FormInput) (s : Session)
    → IsIdle form
    → Ends Flow.goes_on s (render_active_example_form u form s)
unfolding render_active_example_form
form_idle u form s idle = open_form_idle u form s.active_example s idle

choose_queue :
    (pressed : Option Example) (s : Session) {q : Option (String × Option String)}
    → s.queued_ticket ≡ q
    → (choose pressed s).queued_ticket ≡ q
choose_queue none s h = h
choose_queue (some e) s h = h

module _ (u : Database) (F : Formats) (api : Api) where
  pub sidebar_goes_on :
      (x : Fetched Health) (s : Session)
      → api_get api.status_error api.health ≡ x
      → HasText x
      → Ends Flow.goes_on s (sidebar api false s)
  unfolding sidebar
  sidebar_goes_on (Fetched.got health) s h k = (rw h refl, rw h refl)
  sidebar_goes_on (Fetched.wrong e) s h k = (rw (h, k) refl, rw (h, k) refl)

  render_chat_tab_queued :
      (pressed : Option Example) (form : FormInput) (prompt : Option String) (text : String)
      (order_id : Option String) (s : Session)
      → IsIdle form
      → s.queued_ticket ≡ some (text, order_id)
      → HasText (fetched F api text order_id)
      → Ends Flow.reruns
          (with_turn F api text order_id
            (message_of (fetched F api text order_id))
            (record (choose pressed s) { queued_ticket = none }))
          (render_chat_tab F api u pressed form prompt s)
  unfolding render_chat_tab
  render_chat_tab_queued pressed form prompt text order_id s idle q h =
      Ends-then (render_active_example_form u form) (next_turn F api prompt) {s = choose pressed s}
        {t = choose pressed s} (form_idle u form (choose pressed s) idle)
        (next_turn_queued F api text order_id prompt (choose pressed s) (choose_queue pressed s q)
          h)

  -- The queued case is answered in this run, unless the conversation is cleared or a form sends or
  -- closes itself.
  pub main_queued :
      (inputs : Inputs) (text : String) (order_id : Option String) (s : Session)
      → inputs.cleared ≡ false
      → IsIdle inputs.form
      → s.queued_ticket ≡ some (text, order_id)
      → HasText (api_get api.status_error api.health)
      → HasText (fetched F api text order_id)
      → Ends Flow.reruns
          (with_turn F api text order_id
            (message_of (fetched F api text order_id))
            (record (choose inputs.example s) { queued_ticket = none }))
          (main u F api inputs s)
  unfolding main
  main_queued inputs text order_id s cleared idle q health h =
      let (flow, session) = sidebar_goes_on _ s refl health in
      let (flow', session') =
        render_chat_tab_queued inputs.example inputs.form inputs.prompt text order_id s idle q h in
      (rw (cleared, flow, session, flow') refl, rw (cleared, flow, session, flow', session') refl)
