-- ===== src/Tests/Console.antt =====
-- The console and the demo script on concrete inputs.
use deskfleet_ticketwarden.Console.Chat.{resolve_and_store, next_turn, render_chat_tab}
use deskfleet_ticketwarden.Platform.{strip}
use deskfleet_ticketwarden.Tests.Fixtures.{ascii, moment}
use deskfleet_ticketwarden.Tests.Routes.{keyed, application, connect}
use deskfleet_ticketwarden.Base.{
  length, some, none, refl, ◌≡◌, ◌⊎◌, inl, inr, String, true, false, ◌<>◌, Option, is_empty, [],
  ◌∷◌, List, show,
}
use deskfleet_ticketwarden.Console.{Session, Example, new_session}
use deskfleet_ticketwarden.Console.Styles.{RefundReason}
use deskfleet_ticketwarden.Console.Result.{Formats}
use deskfleet_ticketwarden.Console.Api.{api_post, api_get, Api, Answer}
use deskfleet_ticketwarden.Console.Forms.{render_active_example_form, blank, FormInput, submission}
use deskfleet_ticketwarden.Console.Submission.{submission_lem, filled, NamesOrder}
use deskfleet_ticketwarden.Console.Page.{stats_from, sidebar, Inputs, main, session_stats}
use deskfleet_ticketwarden.Console.Served.{served}
use deskfleet_ticketwarden.Console.Runs.{run_all}
use deskfleet_ticketwarden.Routes.{post_resolve}

abbrev formats : Formats
formats = record { title = λ s. s; milliseconds = λ n. show n; dollars = λ n. show n }

-- An API that answers by the route of the application.
abbrev api : Api
api = record {
  url = "http://localhost:8080";
  health = Answer.responded 200 (inl (record { llm_configured = true; tracing_enabled = false }));
  resolve =
      λ text order_id. served ((post_resolve keyed moment connect text order_id application).0);
  tickets = λ limit. Answer.responded 200 (inl []);
  security_events = λ limit. Answer.unreachable "connection refused";
  status_error = λ status. "status " <> show status;
}

abbrev idle : FormInput
idle = record {
  order_id = "";
  reason_choice = RefundReason.wrong_size;
  custom_reason = "";
  product = "";
  question = "";
  complaint = "";
  payload = "";
  submitted = false;
  cancelled = false;
}

abbrev nothing_done : Inputs
nothing_done = record {
  cleared = false;
  example = none;
  form = idle;
  prompt = none;
  decision_filter = "All";
  limit = 20;
  refresh = false;
  type_filter = "All";
}

abbrev order_form : FormInput
order_form = record idle { order_id = " 2 "; submitted = true }

abbrev sent : Inputs
sent = record nothing_done { form = order_form }

abbrev opened : Session
opened = record new_session { active_example = some Example.order_status }

abbrev queued : Session
queued = record new_session { queued_ticket = some ("Where is my order?", some "2") }

abbrev failing_api : Api
failing_api = record api { resolve = λ text order_id. Answer.unreachable "timed out" }

-- The form is chosen and sent, and the API fails.
abbrev picked : Inputs
picked = record sent { example = some Example.order_status }

abbrev two_runs : List (Api × Inputs)
two_runs = (failing_api, picked) ∷ (failing_api, nothing_done) ∷ []

two_messages : length (run_all ascii formats two_runs new_session).messages ≡ 2
unfolding main sidebar api_get session_stats stats_from render_chat_tab render_active_example_form
    submission blank strip next_turn resolve_and_store api_post
two_messages = refl

submission_lem_run :
    ((filled ascii order_form Example.order_status ≡ true)
      × ((text : String) × (order_id : Option String) × (submission ascii order_form
              Example.order_status
            ≡ inr (text, order_id))
          × (is_empty text ≡ false)
          × NamesOrder ascii order_form Example.order_status order_id))
    ⊎ ((filled ascii order_form Example.order_status ≡ false)
        × ((warning : String) × (submission ascii order_form Example.order_status ≡ inl warning)))
submission_lem_run = submission_lem ascii order_form Example.order_status
