-- ===== src/Console/Forms.antt =====
-- The example cases: the row of their labels, and the form that the chosen one opens.
use deskfleet_ticketwarden.Base.{
  String, Bool, Option, none, some, [], ◌∷◌, ◌||◌, ◌<>◌, ◌⊎◌, inl, inr, is_empty, or_else,
  if◌then◌else◌,
}
use deskfleet_ticketwarden.Unicode.{Database}
use deskfleet_ticketwarden.Platform.{strip}
use deskfleet_ticketwarden.Console.{
  Session, Example, Call, Script, pass, rerun, display, update, ◌>>◌,
}
use deskfleet_ticketwarden.Console.Styles.{example_label, RefundReason, refund_reasons}
use deskfleet_ticketwarden.Console.Result.{text_or}

-- The inputs of the open form: its fields, and which of its buttons was pressed.
pub record FormInput : Type 0 where
  pub order_id : String
  pub reason_choice : RefundReason
  pub custom_reason : String
  pub product : String
  pub question : String
  pub complaint : String
  pub payload : String
  pub submitted : Bool
  pub cancelled : Bool

abbrev pub choose : Option Example → Session → Session
choose none s = s
choose (some e) s = record s { active_example = some e }

-- `examples_row`, with the label that was pressed
abbrev pub examples_row : Option Example → Script
examples_row pressed = display (Call.caption "Try an example case:" ∷ []) >> update (choose pressed)

abbrev pub queue_and_close : String × Option String → Script
queue_and_close ticket =
    update (λ s. record s { queued_ticket = some ticket; active_example = none }) >> rerun

-- Free text is asked for under "Other" only.
abbrev custom_reason : RefundReason → String → String
custom_reason RefundReason.other typed = typed
custom_reason _ typed = ""

module _ (u : Database) where
  unfoldable pub blank : String → Bool
  unfolding strip
  blank s = is_empty (strip u s)

  abbrev pub refund_reason : FormInput → String
  refund_reason f = or_else (refund_reasons f.reason_choice) (
      text_or (some (strip u (custom_reason f.reason_choice f.custom_reason)))
        "of an issue with the order")

  -- A form that is submitted: the warning that it shows, or the case that it queues.
  unfoldable pub submission : FormInput → Example → String ⊎ (String × Option String)
  unfolding blank strip
  submission f Example.order_status =
      let oid = strip u f.order_id in
      if blank f.order_id
      then inl "Please enter an order ID."
      else inr ("Where is my order " <> oid <> "? It's been sitting a while.", some oid)
  submission f Example.refund_request =
      let oid = strip u f.order_id in
      if blank f.order_id
      then inl "Please enter an order ID."
      else inr ("I'd like a refund for order " <> oid <> ", " <> refund_reason f <> ".", some oid)
  submission f Example.product_question =
      if blank f.product || blank f.question
      then inl "Please fill in both fields."
      else inr
          ("I have a question about the " <> strip u f.product <> ": " <> strip u f.question, none)
  submission f Example.out_of_scope =
      if blank f.complaint then inl "Please enter a message." else inr (strip u f.complaint, none)
  submission f Example.injection_attempt =
      if blank f.payload
      then inl "Please enter a payload to test."
      else inr (strip u f.payload, none)

  abbrev pub after_submission : String ⊎ (String × Option String) → Script
  after_submission (inl warning) = display (Call.warning warning ∷ [])
  after_submission (inr ticket) = queue_and_close ticket

  abbrev pub open_form : FormInput → Option Example → Script
  open_form f none = pass
  open_form f (some e) =
      display (
        Call.write ("**" <> example_label e <> "** — fill in the details below, then submit.") ∷ [])
      >> (if f.cancelled
          then update (λ s. record s { active_example = none }) >> rerun
          else if f.submitted
          then after_submission (submission f e)
          else pass)

  unfoldable pub render_active_example_form : FormInput → Script
  unfolding submission
  render_active_example_form f s = open_form f s.active_example s
