-- ===== src/Service/Audit.antt =====
-- What the writes of service.py add to each table.
use mathlib.Core.List.{append_assoc, append-nil, map-append}
use deskfleet_ticketwarden.Base.{
  ℕ, ◌≡◌, refl, ap, sym, ◌∙◌, String, Option, some, List, [], ◌∷◌, ◌++◌, map, ◌<>◌, find?, str_eq,
  Bool-cases, inl, inr,
}
use deskfleet_ticketwarden.Platform.{Platform}
use text.Mathlib.TextPositions.{eq_refl}
use deskfleet_ticketwarden.Vocabulary.{ToolStatus, SecurityEventType}
use deskfleet_ticketwarden.Value.{dict}
use deskfleet_ticketwarden.Registry.{ToolRecord}
use deskfleet_ticketwarden.Storage.{TicketRow, ToolCallRow, SecurityEventRow, upsert, insert_ticket}
use deskfleet_ticketwarden.Graph.State.{CaseState}
use deskfleet_ticketwarden.Service.Effects.{
  World, log_status, log_security_event, persist_call, persist_calls, persist, row_of,
}

-- A row of the security log without its number and time.
abbrev pub Entry : Type 0
Entry = String × SecurityEventType × Option String

abbrev pub entry : SecurityEventRow → Entry
entry r = (r.ticket_id, r.event_type, r.detail)

abbrev pub entries : World → List Entry
entries w = map entry w.db.security_events

-- A row of the tool-call log, likewise.
abbrev pub CallEntry : Type 0
CallEntry = String × String × String × String × ToolStatus

abbrev pub call_entry : ToolCallRow → CallEntry
call_entry r = (r.ticket_id, r.tool_name, r.args_json, r.result_json, r.status)

abbrev pub call_entries : World → List CallEntry
call_entries w = map call_entry w.db.tool_calls

-- What the audit promises for a list of calls: an entry for each that was blocked or sanitized.
abbrev pub status_entry : String → ToolStatus → String → List Entry
status_entry id ToolStatus.blocked name =
    (id, SecurityEventType.tool_blocked, some ("tool=" <> name)) ∷ []
status_entry id ToolStatus.sanitized name =
    (id, SecurityEventType.tool_output_sanitized, some ("tool=" <> name)) ∷ []
status_entry id ToolStatus.ok name = []
status_entry id ToolStatus.error name = []

abbrev pub status_entries : String → List ToolRecord → List Entry
status_entries id [] = []
status_entries id (call ∷ calls) =
    status_entry id call.status call.tool_name ++ status_entries id calls

abbrev pub logged : Platform → String → ToolRecord → CallEntry
logged P id call = (id, call.tool_name, P.dumps (dict call.args), P.dumps call.result, call.status)

module _ (P : Platform) (now : ℕ) (id : String) where
  pub log_security_event-entries :
      (event : SecurityEventType) (detail : Option String) (w : World)
      → entries (log_security_event P now id event detail w) ≡ entries w ++ (id, event, detail) ∷ []
  unfolding log_security_event
  log_security_event-entries event detail w = map-append _ w.db.security_events _

  pub log_security_event-rest :
      (event : SecurityEventType) (detail : Option String) (w : World)
      → let w' = log_security_event P now id event detail w in
        (w'.db.tool_calls ≡ w.db.tool_calls) × (w'.db.tickets ≡ w.db.tickets)
  unfolding log_security_event
  log_security_event-rest event detail w = (refl, refl)

  log_status-entries :
      (status : ToolStatus) (name : String) (w : World)
      → entries (log_status P now id status name w) ≡ entries w ++ status_entry id status name
  unfolding log_security_event
  log_status-entries ToolStatus.ok name w = sym (append-nil _)
  log_status-entries ToolStatus.error name w = sym (append-nil _)
  log_status-entries ToolStatus.blocked name w =
      log_security_event-entries SecurityEventType.tool_blocked (some ("tool=" <> name)) w
  log_status-entries ToolStatus.sanitized name w =
      log_security_event-entries SecurityEventType.tool_output_sanitized (some ("tool=" <> name)) w

  -- The event log is all that `_log_security_event` touches in the database.
  log_status-rest :
      (status : ToolStatus) (name : String) (w : World)
      → ((log_status P now id status name w).db.tool_calls ≡ w.db.tool_calls)
        × ((log_status P now id status name w).db.tickets ≡ w.db.tickets)
  unfolding log_security_event
  log_status-rest ToolStatus.ok name w = (refl, refl)
  log_status-rest _ name w = (refl, refl)

  pub persist_call-entries :
      (call : ToolRecord) (w : World)
      → entries (persist_call P now id call w)
        ≡ entries w ++ status_entry id call.status call.tool_name
  unfolding persist_call
  persist_call-entries call w = log_status-entries call.status call.tool_name _

  pub persist_call-rest :
      (call : ToolRecord) (w : World)
      → (call_entries (persist_call P now id call w) ≡ call_entries w ++ logged P id call ∷ [])
        × ((persist_call P now id call w).db.tickets ≡ w.db.tickets)
  unfolding persist_call
  persist_call-rest call w =
      let (calls, tickets) = log_status-rest call.status call.tool_name _ in
      (ap (map call_entry) calls ∙ map-append call_entry w.db.tool_calls _, tickets)

  pub persist_calls-entries :
      (calls : List ToolRecord) (w : World)
      → entries (persist_calls P now id calls w) ≡ entries w ++ status_entries id calls
  unfolding persist_calls
  persist_calls-entries [] w = sym (append-nil _)
  persist_calls-entries (call ∷ calls) w =
      rw (persist_calls-entries calls (persist_call P now id call w), persist_call-entries call w)
        (append_assoc (entries w) _ _)

  pub persist_calls-rest :
      (calls : List ToolRecord) (w : World)
      → (call_entries (persist_calls P now id calls w) ≡ call_entries w ++ map (logged P id) calls)
        × ((persist_calls P now id calls w).db.tickets ≡ w.db.tickets)
  unfolding persist_calls
  persist_calls-rest [] w = (sym (append-nil _), refl)
  persist_calls-rest (call ∷ calls) w =
      let (first, same) = persist_call-rest call w in
      let (later, same') = persist_calls-rest calls (persist_call P now id call w) in
      (later ∙ rw first (append_assoc (call_entries w) _ _), same' ∙ same)

-- The row of a case, as it is found under the case's id.
abbrev pub stored : String → World → Option TicketRow
stored id w = find? (λ (r : TicketRow). str_eq r.id id) w.db.tickets

find-upsert :
    (row : TicketRow) (rows : List TicketRow)
    → (t : ℕ) × (find? (λ (r : TicketRow). str_eq r.id row.id) (upsert row rows)
        ≡ some (record row { created_at = t }))
unfolding upsert
find-upsert row [] = (row.created_at, rw (eq_refl row.id))
find-upsert row (r ∷ rows) =
    let (t, found) = find-upsert row rows in
    elim (Bool-cases (str_eq r.id row.id)) [
      | inl same ↦ (r.created_at, rw (same, eq_refl row.id))
      | inr other ↦ (t, rw (other, other) found)
    ]

-- After `_persist` the case is found under its id with what it was given, its calls are at the end
-- of the tool-call log, and its blocked and sanitized calls at the end of the security log.
pub persist_lem :
    (P : Platform) (now : ℕ) (id : String) (state : CaseState) (latency cost : ℕ) (w : World)
    → let w' = persist P now id state latency cost w in
      ((t : ℕ) × (stored id w'
          ≡ some (record (row_of P now id state latency cost) { created_at = t })))
      × (call_entries w' ≡ call_entries w ++ map (logged P id) state.tool_calls)
      × (entries w' ≡ entries w ++ status_entries id state.tool_calls)
unfolding persist
persist_lem P now id state latency cost w =
    let base : World = record w { db = insert_ticket (row_of P now id state latency cost) w.db } in
    let (calls, tickets) = persist_calls-rest P now id state.tool_calls base in
    let (t, found) = find-upsert (row_of P now id state latency cost) w.db.tickets in
    ((t, rw tickets found), calls, persist_calls-entries P now id state.tool_calls base)
