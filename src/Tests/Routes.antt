-- ===== src/Tests/Routes.antt =====
-- The routes on concrete requests.
use deskfleet_ticketwarden.Llm.Provider.{ChatModel}
use deskfleet_ticketwarden.Costing.{word_count, at_least_one, encoding_for, count_tokens}
use deskfleet_ticketwarden.Tests.Fixtures.{environment, moment, graph, world}
use deskfleet_ticketwarden.Base.{
  inr, inl, is_empty, Bool-cases, [], some, none, refl, ◌≡◌, ℤ, false, ◌≤◌, length,
}
use Prim.Native.Nat.{min}
use deskfleet_ticketwarden.Settings.{defaults}
use deskfleet_ticketwarden.Action.{Result, ok}
use deskfleet_ticketwarden.Service.Resolve.{Moment, Environment, Invoke}
use deskfleet_ticketwarden.Service.Branches.{CountsAll}
use deskfleet_ticketwarden.Routes.{App, post_resolve, clamp, tickets, security_events}
use deskfleet_ticketwarden.Routes.Listing.{length-tickets}

-- A configured environment, and an application that has not compiled its graph.
abbrev pub keyed : Environment
keyed = record environment { settings = record defaults { openai_api_key = "sk-live" } }

abbrev pub application : App
application = record {
  world = world;
  graph = none;
  process = record { environ = []; configured = false };
}

abbrev pub connect : ChatModel → Result Invoke
connect model = ok graph

pub counts_all : (env : Environment) → env.tiktoken ≡ none → (at : Moment) → CountsAll env at
unfolding count_tokens encoding_for
counts_all env h at text = elim (Bool-cases (is_empty text)) [
  | inl empty ↦ (0, rw empty refl)
  | inr words ↦ (at_least_one (word_count env.platform.unicode false text), rw (words, h) refl)
]

-- The application once a case was answered.
abbrev answered_application : App
answered_application =
    (post_resolve keyed moment connect "Where is my order?" (some "2") application).1

length-tickets_run :
    (1 ≤ clamp (ℤ.pos 500))
    × (clamp (ℤ.pos 500) ≤ 100)
    × (length (tickets (ℤ.pos 500) answered_application)
        ≡ min (clamp (ℤ.pos 500)) (length answered_application.world.db.tickets))
    × (length (security_events (ℤ.pos 500) answered_application)
        ≡ min (clamp (ℤ.pos 500)) (length answered_application.world.db.security_events))
length-tickets_run = length-tickets (ℤ.pos 500) answered_application
