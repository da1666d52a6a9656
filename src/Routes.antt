-- ===== src/Routes.antt =====
-- The application (apps/api/src/main.py): its state, its start and its routes. One request is
-- handled after the other.
pub mod Laws
pub mod Listing
pub mod Race
use deskfleet_ticketwarden.Metrics.{Metrics}
use deskfleet_ticketwarden.Base.{
  ◌-◌, ℕ, ℤ, String, Bool, true, false, not, Option, none, some, List, map, ltb, leb, if◌then◌else◌,
}
use deskfleet_ticketwarden.Action.{Result, ok, raised, message}
use deskfleet_ticketwarden.Settings.{Settings, has_llm_credentials}
use deskfleet_ticketwarden.Injection.{is_injection}
use deskfleet_ticketwarden.Pii.{redact_pii}
use deskfleet_ticketwarden.Storage.{init_db, recent_tickets, recent_security_events}
use deskfleet_ticketwarden.Tracing.{Process, configure_tracing, tracing_enabled}
use deskfleet_ticketwarden.Llm.Provider.{ChatModel, build_llm_client}
use deskfleet_ticketwarden.Schemas.{
  validate, TicketSummary, ticket_summary, SecurityEventSummary, event_summary, HealthResponse,
}
use deskfleet_ticketwarden.Service.Effects.{World}
use deskfleet_ticketwarden.Service.Resolve.{
  Environment, Moment, Invoke, ResolveRequest, ResolveResponse, resolve_case,
}

-- `app.state`, and what the process shares with it.
pub record App : Type 0 where
  pub world : World
  pub graph : Option Invoke
  pub process : Process

-- How a request is answered: with a body, as invalid (422), or with a status of 500.
pub data Reply (A : Type 0) : Type 0 where
  replied : A → Reply A
  unprocessable : Reply A
  server_error : String → Reply A

abbrev pub reply_of : {A : Type 0} → Result A → Reply A
reply_of (ok a) = replied a
reply_of (raised e) = server_error (message e)

module _ (env : Environment) where
  -- `lifespan`
  unfoldable pub start : App → App
  unfolding init_db configure_tracing
  start app = record app {
    world = record app.world { db = init_db app.world.db };
    process = (configure_tracing env.settings app.process).1;
  }

  -- `compile_graph()`, where `connect` makes a graph over the chat model of an SDK.
  unfoldable pub compile_graph : (ChatModel → Result Invoke) → Process → Result Invoke × Process
  unfolding configure_tracing build_llm_client
  compile_graph connect p =
      (build_llm_client env.lower env.settings connect, (configure_tracing env.settings p).1)

  -- The graph that was just compiled is kept, if there is one.
  abbrev pub keep_graph : App → Result Invoke × Process → Result Invoke × App
  keep_graph app (ok g, p) = (ok g, record app { graph = some g; process = p })
  keep_graph app (raised e, p) = (raised e, record app { process = p })

  unfoldable pub get_graph : (ChatModel → Result Invoke) → App → Result Invoke × App
  unfolding compile_graph
  get_graph connect app = elim app.graph [
    | some g ↦ (ok g, app)
    | none ↦ keep_graph app (compile_graph connect app.process)
  ]

  -- `_LazyGraph.invoke`: a raise of the compilation is one of the call.
  abbrev pub invoke_with : Result Invoke → Invoke
  invoke_with (ok g) s k = g s k
  invoke_with (raised e) s k = (raised e, k)

  -- `request.app.state.graph or _LazyGraph(request)`
  unfoldable pub graph_for : (ChatModel → Result Invoke) → App → Invoke
  unfolding get_graph
  graph_for connect app = invoke_with (get_graph connect app).0

  -- The application once `invoke` was called; it is called for a text that is not an injection.
  abbrev pub after_graph : (ChatModel → Result Invoke) → ResolveRequest → App → App
  after_graph connect request app =
      if is_injection env.platform.unicode (redact_pii env.platform.unicode (some request.ticket))
      then app
      else (get_graph connect app).1

  -- `POST /resolve`, for a request that is valid
  unfoldable pub resolve :
      Moment → (ChatModel → Result Invoke) → ResolveRequest → App → Reply ResolveResponse × App
  unfolding resolve_case graph_for get_graph
  resolve at connect request app =
      let (r, w) = resolve_case env at (graph_for connect app) request app.world in
      (reply_of r, record (after_graph connect request app) { world = w })

  unfoldable pub post_resolve :
      Moment
      → (ChatModel → Result Invoke)
      → String
      → Option String
      → App
      → Reply ResolveResponse × App
  unfolding validate resolve
  post_resolve at connect ticket order_id app =
      elim (validate env.platform.unicode ticket order_id) [
        | none ↦ (unprocessable, app)
        | some request ↦ resolve at connect request app
      ]

  -- `GET /health`
  unfoldable pub health : HealthResponse
  unfolding has_llm_credentials tracing_enabled
  health = record {
    status = "ok";
    llm_configured = has_llm_credentials env.lower env.settings;
    tracing_enabled = tracing_enabled env.settings;
  }

-- `max(1, min(limit, 100))`
abbrev pub clamp : ℤ → ℕ
clamp (ℤ.pos n) = let m = if leb n 100 then n else 100 in if leb 1 m then m else 1
clamp (ℤ.negsuc n) = 1

-- `GET /tickets` and `GET /security-events`
unfoldable pub tickets : ℤ → App → List TicketSummary
unfolding recent_tickets
tickets limit app = map ticket_summary (recent_tickets (clamp limit) app.world.db)

unfoldable pub security_events : ℤ → App → List SecurityEventSummary
unfolding recent_security_events
security_events limit app = map event_summary (recent_security_events (clamp limit) app.world.db)

-- `GET /metrics`, where `generate_latest` is prometheus_client's exposition: a body and its type
abbrev pub prometheus_metrics : (Metrics → String × String) → App → String × String
prometheus_metrics generate_latest app = generate_latest app.world.metrics

-- A response with its `X-Process-Time-Ms` header.
pub record Timed (A : Type 0) : Type 0 where
  pub response : A
  pub process_time : String

-- `request_timing` around a handler: `:.2f` writes a time of so many nanoseconds in milliseconds, and
-- the clock is read before and after.
abbrev pub request_timing :
    {A : Type 0} → (ℕ → String) → ℕ → ℕ → (App → A × App) → App → Timed A × App
request_timing milliseconds started finished handler app =
    let (response, app') = handler app in
    (record { response = response; process_time = milliseconds (finished - started) }, app')
