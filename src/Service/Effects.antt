-- ===== src/Service/Effects.antt =====
-- What the service writes: `_log_security_event` and `_persist`.
use deskfleet_ticketwarden.Base.{ℕ, String, Option, some, List, [], ◌∷◌, ◌<>◌}
use deskfleet_ticketwarden.Platform.{Platform}
use deskfleet_ticketwarden.Vocabulary.{ToolStatus, SecurityEventType}
use deskfleet_ticketwarden.Registry.{ToolRecord}
use deskfleet_ticketwarden.Storage
use deskfleet_ticketwarden.Storage.{
  TicketRow, insert_ticket, insert_tool_call, insert_security_event,
}
use deskfleet_ticketwarden.Metrics.{Metrics, record_tool_call, record_security_event}
use deskfleet_ticketwarden.Graph.State.{CaseState}

-- The database and the metrics registry, which all requests share.
pub record World : Type 0 where
  pub db : Storage.Database
  pub metrics : Metrics

module _ (P : Platform) (now : ℕ) (ticket_id : String) where
  unfoldable pub log_security_event : SecurityEventType → Option String → World → World
  unfolding insert_security_event record_security_event
  log_security_event event detail w = record {
    db = insert_security_event now ticket_id event detail w.db;
    metrics = record_security_event event w.metrics;
  }

  -- The event that a call's status adds.
  abbrev pub log_status : ToolStatus → String → World → World
  log_status ToolStatus.blocked name w =
      log_security_event SecurityEventType.tool_blocked (some ("tool=" <> name)) w
  log_status ToolStatus.sanitized name w =
      log_security_event SecurityEventType.tool_output_sanitized (some ("tool=" <> name)) w
  log_status _ name w = w

  unfoldable pub persist_call : ToolRecord → World → World
  unfolding insert_tool_call record_tool_call log_security_event
  persist_call call w = log_status call.status call.tool_name (record {
    db = insert_tool_call P now ticket_id call.tool_name call.args call.result call.status w.db;
    metrics = record_tool_call call.tool_name call.status w.metrics;
  })

  unfoldable pub persist_calls : List ToolRecord → World → World
  unfolding persist_call
  persist_calls [] w = w
  persist_calls (call ∷ calls) w = persist_calls calls (persist_call call w)

  abbrev pub row_of : CaseState → ℕ → ℕ → TicketRow
  row_of state latency cost = record {
    id = ticket_id;
    body = state.ticket;
    category = state.category;
    decision = state.decision;
    reply = state.draft;
    escalation_reason = state.escalation_reason;
    iterations = state.iterations;
    latency = latency;
    cost = cost;
    created_at = now;
  }

  unfoldable pub persist : CaseState → ℕ → ℕ → World → World
  unfolding insert_ticket persist_calls
  persist state latency cost w =
      persist_calls state.tool_calls
        (record w { db = insert_ticket (row_of state latency cost) w.db })
