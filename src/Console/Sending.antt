-- ===== src/Console/Sending.antt =====
-- A form that is sent, followed to the answer in the next run.
use deskfleet_ticketwarden.Base.{some, none, false, true, ◌≡◌}
use deskfleet_ticketwarden.Console.{Session, Example}
use deskfleet_ticketwarden.Console.Api.{Api}
use deskfleet_ticketwarden.Console.Page.{Inputs}

-- What the user does to send the form of an example that is open.
pub record Submits (inputs : Inputs) (e : Example) (s : Session) : Type 0 where
  pub cleared : inputs.cleared ≡ false
  pub pressed : inputs.example ≡ none
  pub submitted : inputs.form.submitted ≡ true
  pub cancelled : inputs.form.cancelled ≡ false
  pub opened : s.active_example ≡ some e
