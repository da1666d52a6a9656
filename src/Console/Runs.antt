-- ===== src/Console/Runs.antt =====
-- Whole runs of the script, one after the other, keep the invariant of the session.
use mathlib.Core.List.{[]}
use deskfleet_ticketwarden.Base.{All, false, ◌≡◌, ◌∷◌, Bool, any}
use deskfleet_ticketwarden.Console.Page.{Inputs, main}
use deskfleet_ticketwarden.Console.Tabs.{untyped}
use deskfleet_ticketwarden.Console.Result.{Formats}
use deskfleet_ticketwarden.Unicode.{Database}
use deskfleet_ticketwarden.Console.{ℕ, List, String, Option, Session}
use deskfleet_ticketwarden.Console.Api.{Api, Fetched, EventRow, api_get}
use deskfleet_ticketwarden.Console.Turns.{HasText, fetched}

-- Every event says its type.
abbrev pub HasTypes : Fetched (List EventRow) → Type 0
HasTypes (Fetched.got events) = any untyped events ≡ false
HasTypes (Fetched.wrong e) = Unit

-- An error of the API has a text, and its events have types.
pub record SaysWhy (F : Formats) (api : Api) : Type 0 where
  pub health : HasText (api_get api.status_error api.health)
  pub resolve : (text : String) (order_id : Option String) → HasText (fetched F api text order_id)
  pub tickets : (limit : ℕ) → HasText (api_get api.status_error (api.tickets limit))
  pub security_events : HasText (api_get api.status_error (api.security_events 50))
  pub types : HasTypes (api_get api.status_error (api.security_events 50))

-- The session after several runs, each with its inputs and with the API of its time.
abbrev pub run_all : Database → Formats → List (Api × Inputs) → Session → Session
run_all u F [] s = s
run_all u F ((api, inputs) ∷ runs) s = run_all u F runs (main u F api inputs s).session

abbrev pub AllSayWhy : Formats → List (Api × Inputs) → Type 0
AllSayWhy F = All (λ (run : Api × Inputs). SaysWhy F run.0)
