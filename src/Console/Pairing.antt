-- ===== src/Console/Pairing.antt =====
-- The invariant of the session: every case in it has its answer, and no run crashes.
use mathlib.Core.Bool.{true}
use deskfleet_ticketwarden.Console.Chat.{
  next_case, next_turn, show_turn, last_asked, last_reply, show_reply, resolve_and_store,
  show_asked, last_turn,
}
use deskfleet_ticketwarden.Console.Result.{Formats}
use deskfleet_ticketwarden.Base.{
  if◌then◌else◌, Bool, truthy, none, refl, List, String, some, All-append, ◌∷◌, false, [], Option,
  ◌≡◌, All, ◌++◌, is_empty,
}
use mathlib.Core.List.{reverse, reverse-cons}
use deskfleet_ticketwarden.Console.Turns.{
  HasText, fetched, message_of, append_two, resolve_and_store_got,
}
use deskfleet_ticketwarden.Console.{
  rerun, Call, CaseResult, Session, Message, Flow, Run, Script, ◌>>◌, after,
}
use deskfleet_ticketwarden.Console.Api.{if_error, Api, Fetched}

abbrev pub IsAnswer : Message → Type 0
IsAnswer (Message.asked text order_id) = ⊥
IsAnswer (Message.answered r) = Unit
IsAnswer (Message.failed e) = is_empty e ≡ false

-- Cases and answers take turns, and an error has a text.
pub data IsPaired : List Message → Type 0 where
  nothing : IsPaired []
  turn :
      (text : String) (order_id : Option String) {m : Message} {ms : List Message}
      → IsAnswer m
      → IsPaired ms
      → IsPaired (Message.asked text order_id ∷ m ∷ ms)

abbrev pub EndsWell : Flow → Type 0
EndsWell Flow.crashes = ⊥
EndsWell _ = Unit

abbrev pub IsSound : Run → Type 0
IsSound r = EndsWell r.flow × IsPaired r.session.messages

abbrev pub Keeps : Script → Type 0
Keeps p = (s : Session) → IsPaired s.messages → IsSound (p s)

after-IsSound_flow :
    (f : Flow) (s : Session) (shown : List Call) (q : Script)
    → IsSound (record { flow = f; session = s; shown = shown })
    → Keeps q
    → IsSound (after (record { flow = f; session = s; shown = shown }) q)
after-IsSound_flow Flow.goes_on s shown q h k = k s h.1
after-IsSound_flow Flow.reruns s shown q h k = h
after-IsSound_flow Flow.crashes s shown q h k = h

after-IsSound : (r : Run) (q : Script) → IsSound r → Keeps q → IsSound (after r q)
after-IsSound r q = after-IsSound_flow r.flow r.session r.shown q

pub Keeps-then : (p q : Script) → Keeps p → Keeps q → Keeps (p >> q)
Keeps-then p q h k s c = after-IsSound (p s) q (h s c) k

pub Keeps-if : (b : Bool) (p q : Script) → Keeps p → Keeps q → Keeps (if b then p else q)
Keeps-if true p q h k = h
Keeps-if false p q h k = k

pub Keeps-if_error :
    {A : Type 0} (x : Fetched A) (on_error : String → Script) (k : A → Script)
    → HasText x
    → ((e : String) → Keeps (on_error e))
    → ((a : A) → Keeps (k a))
    → Keeps (if_error x on_error k)
Keeps-if_error (Fetched.got a) on_error k h he ha s c = ha a s c
Keeps-if_error (Fetched.wrong e) on_error k h he ha s c = rw h (he e s c)

IsPaired-append : {ms ns : List Message} → IsPaired ms → IsPaired ns → IsPaired (ms ++ ns)
IsPaired-append nothing k = k
IsPaired-append (turn text order_id a h) k = turn text order_id a (IsPaired-append h k)

message_of-IsAnswer : (x : Fetched CaseResult) → HasText x → IsAnswer (message_of x)
message_of-IsAnswer (Fetched.got r) h = tt
message_of-IsAnswer (Fetched.wrong e) h = h

-- A message that the page can show again.
abbrev IsShowable : Message → Type 0
IsShowable (Message.failed e) = is_empty e ≡ false
IsShowable _ = Unit

IsAnswer-IsShowable : (m : Message) → IsAnswer m → IsShowable m
IsAnswer-IsShowable (Message.asked text order_id) h = tt
IsAnswer-IsShowable (Message.answered r) h = tt
IsAnswer-IsShowable (Message.failed e) h = h

IsPaired-IsShowable : {ms : List Message} → IsPaired ms → All IsShowable ms
IsPaired-IsShowable nothing = tt
IsPaired-IsShowable (turn text order_id {m} a h) =
    (tt, (IsAnswer-IsShowable m a, IsPaired-IsShowable h))

All-reverse : {A : Type 0} (P : A → Type 0) (xs : List A) → All P xs → All P (reverse xs)
All-reverse P [] h = tt
All-reverse P (x ∷ xs) h =
    rw (reverse-cons x xs) (All-append P (reverse xs) (x ∷ []) (All-reverse P xs h.1) (h.0, tt))

module _ (F : Formats) where
  show_asked-IsSound : (o : Option (String × Option String)) → Keeps (show_asked o)
  show_asked-IsSound none s c = (tt, c)
  show_asked-IsSound (some (text, order_id)) s c = (tt, c)

  show_reply-IsSound :
      (ms : List Message) → All IsShowable ms → Keeps (show_reply F (last_reply ms))
  show_reply-IsSound [] h s c = (tt, c)
  show_reply-IsSound (Message.asked text order_id ∷ ms) h s c = show_reply-IsSound ms h.1 s c
  show_reply-IsSound (Message.answered r ∷ ms) h s c = (tt, c)
  show_reply-IsSound (Message.failed e ∷ ms) h s c = rw h.0 (tt, c)

  last_turn-IsSound : Keeps (last_turn F)
  unfolding last_turn
  last_turn-IsSound s c =
      Keeps-then (show_asked (last_asked (reverse s.messages)))
        (show_reply F (last_reply (reverse s.messages)))
        (show_asked-IsSound (last_asked (reverse s.messages)))
        (show_reply-IsSound (reverse s.messages)
          (All-reverse IsShowable s.messages (IsPaired-IsShowable c)))
        s c

  module _ (api : Api) where
    resolve_and_store-IsSound :
        (text : String) (order_id : Option String)
        → HasText (fetched F api text order_id)
        → Keeps (resolve_and_store F api (text, order_id))
    resolve_and_store-IsSound text order_id h s c =
        let x = fetched F api text order_id in
        let (flow, session) = resolve_and_store_got F api text order_id s x refl h in
        (
          rw flow tt,
          rw (session, append_two s.messages (Message.asked text order_id) (message_of x))
              (IsPaired-append c (turn text order_id (message_of-IsAnswer x h) nothing)),
        )

    show_turn-IsSound :
        (o : Option (String × Option String))
        → ((text : String) (order_id : Option String) → HasText (fetched F api text order_id))
        → Keeps (show_turn F api o)
    show_turn-IsSound none h s c = last_turn-IsSound s c
    show_turn-IsSound (some (text, order_id)) h s c =
        Keeps-then (resolve_and_store F api (text, order_id)) rerun
          (resolve_and_store-IsSound text order_id (h text order_id)) (λ t d. (tt, d)) s c

    pub next_turn-IsSound :
        ((text : String) (order_id : Option String) → HasText (fetched F api text order_id))
        → (prompt : Option String) → Keeps (next_turn F api prompt)
    unfolding next_turn
    next_turn-IsSound h prompt s c =
        show_turn-IsSound (next_case s.queued_ticket (truthy prompt)) h
          (record s { queued_ticket = none }) c
