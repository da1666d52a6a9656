-- ===== src/Storage.antt =====
-- The tables of cases, tool calls and security events (apps/api/src/storage/repo.py, and the schema
-- in storage/db.py). A table is the list of its rows in the order of their row ids.
pub mod Recent
pub mod Connection
use deskfleet_ticketwarden.Base.{
  ℕ, ◌+◌, String, Option, List, [], ◌∷◌, ◌++◌, leb, length, take, filter, str_eq, if◌then◌else◌,
}
use mathlib.Core.List.{reverse}
use deskfleet_ticketwarden.Vocabulary.{Category, Decision, ToolStatus, SecurityEventType}
use deskfleet_ticketwarden.Value.{Value, dict, Pairs}
use deskfleet_ticketwarden.Platform.{Platform}
use deskfleet_ticketwarden.Catalog.Tables.{Catalog}
use deskfleet_ticketwarden.Catalog.Seed.{seed_catalog}

pub record TicketRow : Type 0 where
  pub id : String
  pub body : String
  pub category : Option Category
  pub decision : Option Decision
  pub reply : Option String
  pub escalation_reason : Option String
  pub iterations : ℕ
  -- in nanoseconds
  pub latency : ℕ
  -- in 10⁻⁸ USD
  pub cost : ℕ
  -- seconds, from SQLite's clock
  pub created_at : ℕ

pub record ToolCallRow : Type 0 where
  pub id : ℕ
  pub ticket_id : String
  pub tool_name : String
  pub args_json : String
  pub result_json : String
  pub status : ToolStatus
  pub created_at : ℕ

pub record SecurityEventRow : Type 0 where
  pub id : ℕ
  pub ticket_id : String
  pub event_type : SecurityEventType
  pub detail : Option String
  pub created_at : ℕ

pub record Database : Type 0 where
  pub tickets : List TicketRow
  pub tool_calls : List ToolCallRow
  pub security_events : List SecurityEventRow
  pub catalog : Catalog

-- `init_db`: tables that exist stay, and the catalog is loaded.
unfoldable pub init_db : Database → Database
unfolding seed_catalog
init_db db = record db { catalog = seed_catalog db.catalog }

-- `ON CONFLICT(id) DO UPDATE`: the row keeps its place and the time of its creation.
unfoldable pub upsert : TicketRow → List TicketRow → List TicketRow
upsert row [] = row ∷ []
upsert row (r ∷ rows) =
    if str_eq r.id row.id
    then record row { created_at = r.created_at } ∷ rows
    else r ∷ upsert row rows

unfoldable pub insert_ticket : TicketRow → Database → Database
unfolding upsert
insert_ticket row db = record db { tickets = upsert row db.tickets }

-- `AUTOINCREMENT`: no row is ever deleted, so the next id follows from their number.
unfoldable pub insert_tool_call :
    Platform → ℕ → String → String → Pairs → Value → ToolStatus → Database → Database
insert_tool_call P now ticket_id tool_name args result status db = record db {
  tool_calls =
      db.tool_calls
      ++ record {
        id = length db.tool_calls + 1;
        ticket_id = ticket_id;
        tool_name = tool_name;
        args_json = P.dumps (dict args);
        result_json = P.dumps result;
        status = status;
        created_at = now;
      }
        ∷ [];
}

unfoldable pub insert_security_event :
    ℕ → String → SecurityEventType → Option String → Database → Database
insert_security_event now ticket_id event_type detail db = record db {
  security_events =
      db.security_events
      ++ record {
        id = length db.security_events + 1;
        ticket_id = ticket_id;
        event_type = event_type;
        detail = detail;
        created_at = now;
      }
        ∷ [];
}

-- `ORDER BY created_at DESC`, where rows of one second keep the order in which they come.
module _ {A : Type 0} (created_at : A → ℕ) where
  unfoldable pub place : A → List A → List A
  place r [] = r ∷ []
  place r (s ∷ rows) = if leb (created_at s) (created_at r) then r ∷ s ∷ rows else s ∷ place r rows

  unfoldable pub newest_first : List A → List A
  unfolding place
  newest_first [] = []
  newest_first (r ∷ rows) = place r (newest_first rows)

  -- `ORDER BY created_at DESC, rowid DESC LIMIT ?`
  unfoldable pub recent : ℕ → List A → List A
  unfolding newest_first
  recent limit rows = take limit (newest_first (reverse rows))

unfoldable pub recent_tickets : ℕ → Database → List TicketRow
unfolding recent
recent_tickets limit db = recent (λ (r : TicketRow). r.created_at) limit db.tickets

unfoldable pub tool_calls_for_ticket : String → Database → List ToolCallRow
tool_calls_for_ticket ticket_id db =
    filter (λ (r : ToolCallRow). str_eq r.ticket_id ticket_id) db.tool_calls

unfoldable pub recent_security_events : ℕ → Database → List SecurityEventRow
unfolding recent
recent_security_events limit db =
    recent (λ (r : SecurityEventRow). r.created_at) limit db.security_events
