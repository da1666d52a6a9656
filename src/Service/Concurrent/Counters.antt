-- ===== src/Service/Concurrent/Counters.antt =====
-- The counters of metrics.py and the logs of storage/db.py when requests (service.py) run at the
-- same time.
use deskfleet_ticketwarden.Service.Concurrent.Balance.{
  puts_call, counts_event, counts_call, Runs-IsBalanced, puts_event,
}
use deskfleet_ticketwarden.Service.Consistency.{IsConsistent}
use deskfleet_ticketwarden.Service.Concurrent.Totals.{perform_all-total}
use deskfleet_ticketwarden.Vocabulary.{event_value, status_value}
use deskfleet_ticketwarden.Storage.{ToolCallRow, SecurityEventRow}
use deskfleet_ticketwarden.Base.{
  ℕ, ◌+◌, ◌≡◌, ◌&&◌, String, List, str_eq, arith, count, count-concat,
}
use deskfleet_ticketwarden.Platform.{Platform}
use deskfleet_ticketwarden.Service.Effects.{World}
use deskfleet_ticketwarden.Service.Concurrent.{
  Environment, count_event, put_event, count_call, put_call, Write, perform, perform_all,
}
use deskfleet_ticketwarden.Service.Concurrent.Interleaving.{Runs, Job}

abbrev event_rows : String → World → ℕ
event_rows key w =
    count (λ (r : SecurityEventRow). str_eq (event_value r.event_type) key) w.db.security_events

abbrev call_rows : String → String → World → ℕ
call_rows tool status w =
    count (λ (r : ToolCallRow). str_eq r.tool_name tool && str_eq (status_value r.status) status)
      w.db.tool_calls

module _ (P : Platform) where
  pub perform-security_events :
      (key : String) (x : Write) (w : World)
      → (perform P x w).metrics.security_events key
        ≡ w.metrics.security_events key + counts_event key x
  unfolding perform
  perform-security_events key (count_event event) w = ground arith
  perform-security_events key _ w = ground arith

  perform-event_rows :
      (key : String) (x : Write) (w : World)
      → event_rows key (perform P x w) ≡ event_rows key w + puts_event key x
  unfolding perform
  perform-event_rows key (put_event now id event detail) w = rw count-concat (ground arith)
  perform-event_rows key _ w = ground arith

  pub perform-tool_calls :
      (tool status : String) (x : Write) (w : World)
      → (perform P x w).metrics.tool_calls tool status
        ≡ w.metrics.tool_calls tool status + counts_call tool status x
  unfolding perform
  perform-tool_calls tool status (count_call name s) w = ground arith
  perform-tool_calls tool status _ w = ground arith

  perform-call_rows :
      (tool status : String) (x : Write) (w : World)
      → call_rows tool status (perform P x w) ≡ call_rows tool status w + puts_call tool status x
  unfolding perform
  perform-call_rows tool status (put_call now id call) w = rw count-concat (ground arith)
  perform-call_rows tool status _ w = ground arith

-- However the writes of any number of requests are interleaved, the counters of security events and
-- of tool calls end equal to the number of rows with the same labels in the two logs, if they were
-- so before.
pub Runs-IsConsistent :
    (env : Environment) (jobs : List Job) (writes : List Write) (w : World)
    → Runs env jobs writes
    → IsConsistent w
    → IsConsistent (perform_all env.platform writes w)
Runs-IsConsistent env jobs writes w way c =
    let P = env.platform in
    let b = Runs-IsBalanced env jobs way in
    record {
      events = λ key. omega (
        arith,
        c.events key,
        b.events key,
        perform_all-total (counts_event key) P (λ v. v.metrics.security_events key)
            (perform-security_events P key) writes w,
        perform_all-total (puts_event key) P (event_rows key) (perform-event_rows P key) writes w,
      );
      calls = λ tool status. omega (
        arith,
        c.calls tool status,
        b.calls tool status,
        perform_all-total (counts_call tool status) P (λ v. v.metrics.tool_calls tool status)
            (perform-tool_calls P tool status) writes w,
        perform_all-total (puts_call tool status) P (call_rows tool status)
            (perform-call_rows P tool status) writes w,
      );
    }
