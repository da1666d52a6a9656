-- ===== src/Schemas.antt =====
-- Request validation and the summaries that the listing routes return (apps/api/src/schemas.py).
use deskfleet_ticketwarden.Base.{
  ℕ, String, Bool, true, ◌&&◌, not, Option, none, some, chars, is_empty, leb, if◌then◌else◌,
}
use deskfleet_ticketwarden.Unicode.{Database}
use deskfleet_ticketwarden.Platform.{strip}
use deskfleet_ticketwarden.Vocabulary.{Category, Decision, SecurityEventType}
use deskfleet_ticketwarden.Storage.{TicketRow, SecurityEventRow}
use deskfleet_ticketwarden.Service.Resolve.{ResolveRequest}

abbrev fits_order_id : Option String → Bool
fits_order_id none = true
fits_order_id (some s) = leb (chars s) 64

-- The model that pydantic makes of a request's body, or `none` for a validation error.
unfoldable pub validate : Database → String → Option String → Option ResolveRequest
unfolding strip
validate u ticket order_id =
    if leb 1 (chars ticket)
      && leb (chars ticket) 8000
      && not (is_empty (strip u ticket))
      && fits_order_id order_id
    then some (record { ticket = ticket; order_id = order_id })
    else none

pub record TicketSummary : Type 0 where
  pub id : String
  pub body : String
  pub category : Option Category
  pub decision : Option Decision
  pub reply : Option String
  pub escalation_reason : Option String
  pub iterations : ℕ
  -- in nanoseconds, and in 10⁻⁸ USD
  pub latency : ℕ
  pub cost_usd : ℕ
  pub created_at : ℕ

pub record SecurityEventSummary : Type 0 where
  pub id : ℕ
  pub ticket_id : String
  pub event_type : SecurityEventType
  pub detail : Option String
  pub created_at : ℕ

pub record HealthResponse : Type 0 where
  pub status : String
  pub llm_configured : Bool
  pub tracing_enabled : Bool

-- `TicketSummary(**row)`
abbrev pub ticket_summary : TicketRow → TicketSummary
ticket_summary row = record {
  id = row.id;
  body = row.body;
  category = row.category;
  decision = row.decision;
  reply = row.reply;
  escalation_reason = row.escalation_reason;
  iterations = row.iterations;
  latency = row.latency;
  cost_usd = row.cost;
  created_at = row.created_at;
}

abbrev pub event_summary : SecurityEventRow → SecurityEventSummary
event_summary row = record {
  id = row.id;
  ticket_id = row.ticket_id;
  event_type = row.event_type;
  detail = row.detail;
  created_at = row.created_at;
}
