-- ===== src/Lib.antt =====
-- TicketWarden: an API that resolves support tickets with a language model behind guardrails. A
-- request is redacted and scanned; if it passes, a graph of four nodes (classify, research, draft,
-- review) works on it, calling read-only tools through an allowlist, and the draft is redacted and
-- checked again before it is stored and returned.
--
-- The parts, with paths below apps/api/src:
--   Service: service.py. `resolve_case` takes the graph as what its `invoke` does, and the database
--     and the metrics as a `World` that is passed along; Service/Effects is `_persist` and
--     `_log_security_event`, Service/Resolve the rest of the file; the proofs are in Audit (what
--     the writes add to each table), Outcome, Cases, Branches, Consistency, Trail and Whole.
--     Service/Concurrent is the same request as the list of its writes, for requests that overlap:
--     Sequential (a request alone), Interleaving (the orders), Totals, Balance, Counters and Orders
--     (the metrics), Trails, Isolation and Recorded (what is found under a ticket).
--   Graph: graph/state.py (State), the protocol of graph/llm.py (Client), graph/nodes.py and
--     graph/edges.py (Nodes), graph/build.py with what LangGraph documents of a compiled graph
--     (Engine); proofs in Research (one visit of the researcher), Loop, Termination and Safety.
--   Injection: guardrails/injection.py, with its tables in Signals, `scan_tool_result` in
--     Quarantine and `detect_prompt_leak` in Leak; proofs of the score in Score, of invisible
--     characters in Invisible.
--   Pii: guardrails/pii.py, with proofs in Pii/Laws; Pii/Placeholder, Pii/Reference and Pii/Restore
--     are about the references that are taken out of a text and put back.
--   Registry: store/registry.py. Catalog: store/catalog.py, store/seed.py (Catalog/Seed) and the
--     catalog's tables (Catalog/Tables); Catalog/Seed/Load runs the load again.
--   Storage: storage/repo.py and the schema of storage/db.py, with proofs of the recent rows in
--     Storage/Recent and connections in Storage/Connection. Metrics, Usage and Costing (proofs in
--     their Laws): observability/metrics.py, usage.py and costing.py.
--   Settings: config.py. Vocabulary: constants.py. Shared: packages/shared/constants.py (from the
--     repository's root).
--   Llm: graph/llm.py, with the choice of a chat model (Provider), the prompts (Prompts) and the
--     client that the nodes use (Chat). Registry/Schemas: the schemas of store/registry.py.
--   Tracing: observability/tracing.py. Schemas: schemas.py.
--   Routes: main.py over a state `App` that holds the world, the graph that is kept and the
--     process's environment; proofs in Laws (requests) and Listing (pages). Routes/Race is
--     `get_graph` as steps of requests that race for the graph.
--   Console: apps/ui/app.py (from the repository's root). A run of the script is a function of the
--     session, of the user's inputs and of what the API answers: Styles (the tables), Api
--     (`_api_get`, `_api_post`), Result (`render_result`), Forms (the example cases), Chat
--     (`resolve_and_store` and the chat tab), Tabs (the two listings), Page (`session_stats`,
--     `sidebar`, `main`). Proofs: Turns follows a queued case to its answer, Sending a form, Served
--     a case against the route of main.py, Pairing and Runs are the invariant, Submission and Tally
--     the forms and the counts.
--   SeedScript: scripts/seed_tickets.py (from the repository's root), with a run against the
--     application in SeedScript/Exit.
--   Regex (Sound and Pieces: matches are parts of the text), Unicode, Platform, Value and Action
--     are what the code uses of Python: `re` as a backtracking matcher that gives matches in the
--     order in which `re` tries them, character classes, `int`, `strip` and SQLite's LIKE, the
--     values of JSON, and calls that may raise.
--   Base: names and lemmas that all share. Tests: runs on concrete inputs.
--
-- The guardrails are executable: a pattern is data, and the tests run them on texts. Characters
-- outside ASCII are read from a parameter, the Unicode database of Python, of which nothing is
-- assumed, except where a theorem says so: that digits are word characters, as `re` documents, or
-- that NFKC keeps ASCII and invisible characters, which have no other form.
-- The model is a parameter too: four calls over a state of its own, which may raise and may answer
-- differently each time. So are the texts that Python gives to exceptions and JSON, and tiktoken's
-- encodings.
--
-- The graph runs under a limit on its steps, as LangGraph runs it (25 unless configured): two steps
-- and two for each review are used at most, so that limit is enough for up to eleven reviews. All
-- other functions recurse on their data; the matcher stops a repetition that takes no character.
--
-- Times are whole nanoseconds and costs whole 10⁻⁸ USD, where the code has floats: rounding to the
-- last place kept is exact here. Amounts of money are in hundredths.
--
-- LangChain, LangSmith, FastAPI, requests, urllib and Streamlit are not part of the repository:
-- what they answer is an argument, and of a response only the status and the body are read. The
-- routes are modelled one after the other. Requests that overlap in FastAPI's pool of threads are
-- modelled by the order of their writes, where each statement of SQLite and each update of a metric
-- is one step, and by the order of their steps in `get_graph`.
--
-- Not modelled: the text of /metrics, which prometheus_client writes; the style sheet and the
-- layout of the console's markup (apps/ui/app.py), of which the texts that are put into it are
-- kept; faults of the file system and of SQLite, its locks among them; LangGraph's checkpoints,
-- which are kept per ticket id and so never read by another request.
pub mod Base
pub mod Unicode
pub mod Regex
pub mod Action
pub mod Value
pub mod Vocabulary
pub mod Settings
pub mod Platform
pub mod Catalog
pub mod Registry
pub mod Injection
pub mod Pii
pub mod Metrics
pub mod Storage
pub mod Usage
pub mod Costing
pub mod Graph
pub mod Llm
pub mod Tracing
pub mod Schemas
pub mod Routes
pub mod Shared
pub mod Console
pub mod SeedScript
pub mod Service
pub mod Tests
