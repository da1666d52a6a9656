-- ===== src/Tests/Store.antt =====
-- The tables, the fixture data and the collector.
use deskfleet_ticketwarden.Storage.Connection.{Disk, Statement}
use deskfleet_ticketwarden.Base.{All, ◌≡◌, refl, ◌+◌, length, take, List, [], ◌∷◌, none, some, ℕ}
use deskfleet_ticketwarden.Action.{exception}
use deskfleet_ticketwarden.Catalog.Seed.{
  products, orders, order_items, same_product, same_order, same_item, seed_catalog,
}
use deskfleet_ticketwarden.Catalog.Seed.Load.{IsThere, seed_catalog_lem}
use deskfleet_ticketwarden.Storage
use deskfleet_ticketwarden.Storage.{
  insert_security_event, TicketRow, SecurityEventRow, recent_tickets, recent_security_events,
}
use deskfleet_ticketwarden.Storage.Recent.{IsNewestFirst, recent_rows_lem}
use deskfleet_ticketwarden.Vocabulary.{SecurityEventType}
use deskfleet_ticketwarden.Usage.{on_llm_end, LlmResponse, Reported, new_collector}
use deskfleet_ticketwarden.Costing.{Usage, add, estimate_cost, price_for}
use deskfleet_ticketwarden.Costing.Laws.{IsPriced, add-IsPriced}
use deskfleet_ticketwarden.Usage.Laws.{collect, prompt_sum, completion_sum, collect_lem}
use deskfleet_ticketwarden.Tests.Fixtures.{world, catalog}
use mathlib.Core.List.{Perm}

abbrev event : ℕ → ℕ → SecurityEventRow
event id created_at = record {
  id = id;
  ticket_id = "tkt_1";
  event_type = SecurityEventType.tool_blocked;
  detail = none;
  created_at = created_at;
}

abbrev stored_events : Storage.Database
stored_events = record world.db { security_events = event 1 5 ∷ event 2 9 ∷ event 3 5 ∷ [] }

two_newest : recent_security_events 2 stored_events ≡ event 2 9 ∷ event 3 5 ∷ []
unfolding recent_security_events
two_newest = refl

recent_rows_lem_example :
    ((rows : List TicketRow) × Perm rows stored_events.tickets
      × IsNewestFirst (λ (r : TicketRow). r.created_at) rows
      × (recent_tickets 2 stored_events ≡ take 2 rows))
    × ((rows : List SecurityEventRow) × Perm rows stored_events.security_events
        × IsNewestFirst (λ (r : SecurityEventRow). r.created_at) rows
        × (recent_security_events 2 stored_events ≡ take 2 rows))
recent_rows_lem_example = recent_rows_lem 2 stored_events

seed_catalog_lem_example :
    let c' = seed_catalog catalog in
    All (IsThere same_product c'.products) products
    × All (IsThere same_order c'.orders) orders
    × All (IsThere same_item c'.order_items) order_items
    × (seed_catalog c' ≡ c')
seed_catalog_lem_example = seed_catalog_lem catalog

abbrev report : Reported → Reported → LlmResponse
report p c = record {
  generations = (some (record { prompt = p; completion = c }) ∷ []) ∷ [];
  legacy = none;
}

-- The second report has a count that is no number.
abbrev reports : List LlmResponse
reports =
    report (Reported.tokens 100) (Reported.tokens 20)
    ∷ report (Reported.malformed (exception "invalid literal")) (Reported.tokens 5)
    ∷ report (Reported.tokens 7) Reported.missing
    ∷ []

collected :
    collect reports new_collector
    ≡ record { prompt_tokens = 107; completion_tokens = 20; llm_calls = 3 }
unfolding collect on_llm_end
collected = refl

collect_lem_run :
    let k' = collect reports new_collector in
    (k'.llm_calls ≡ new_collector.llm_calls + length reports)
    × (k'.prompt_tokens ≡ new_collector.prompt_tokens + prompt_sum reports)
    × (k'.completion_tokens ≡ new_collector.completion_tokens + completion_sum reports)
collect_lem_run = collect_lem reports new_collector

abbrev first_call : Usage
first_call = record { prompt_tokens = 1000; completion_tokens = 200; cost_usd = 27000 }

add-IsPriced_run : IsPriced (λ s. s) "gpt-4o-mini" "openai" (add first_call first_call)
unfolding estimate_cost price_for
add-IsPriced_run = add-IsPriced (λ s. s) "gpt-4o-mini" "openai" first_call first_call refl refl

-- A model that the table does not list has its provider's price, and a provider that it does not
-- list has the default.
fallbacks :
    (estimate_cost (λ s. s) 1000 0 "gpt-9" "groq" ≡ 59000)
    × (estimate_cost (λ s. s) 1000 0 "gpt-4o" "elsewhere" ≡ 15000)
unfolding estimate_cost price_for
fallbacks = (refl, refl)

-- A disk without files, and two events that are logged.
abbrev bare : Disk
bare path = none

abbrev log_event : ℕ → Statement
log_event now = record {
  table = "security_events";
  change = insert_security_event now "tkt_1" SecurityEventType.tool_blocked none;
}
