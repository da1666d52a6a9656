-- ===== src/Tracing.antt =====
-- LangSmith tracing (apps/api/src/observability/tracing.py). The SDK is not part of the repository:
-- what it collects and what it answers are arguments.
pub mod Laws
use deskfleet_ticketwarden.Base.{
  ℕ, String, Bool, true, false, not, ◌&&◌, ◌||◌, Option, none, some, List, [], ◌∷◌, ◌++◌, ◌<>◌,
  is_empty, is_prefix, replace, str_eq, is_some, filter, find?, truthy, text_or_empty,
  if◌then◌else◌,
}
use deskfleet_ticketwarden.Settings.{Settings}
use deskfleet_ticketwarden.Action.{Result, ok, raised}

-- `ROOT_RUN_NAME`
abbrev pub root_run_name : String
root_run_name = "ticketwarden.resolve"

unfoldable pub tracing_enabled : Settings → Bool
tracing_enabled s =
    if is_empty s.langchain_api_key || is_prefix "lsv2_..." s.langchain_api_key
    then false
    else s.langchain_tracing_v2

-- `os.environ`
abbrev pub Environ : Type 0
Environ = List (String × String)

unfoldable pub lookup_env : String → Environ → Option String
lookup_env k [] = none
lookup_env k ((j, v) ∷ env) = if str_eq j k then some v else lookup_env k env

-- `os.environ.setdefault(k, v)`
unfoldable pub set_default : String → String → Environ → Environ
unfolding lookup_env
set_default k v env = if is_some (lookup_env k env) then env else env ++ (k, v) ∷ []

unfoldable pub set_defaults : List (String × String) → Environ → Environ
unfolding set_default
set_defaults [] env = env
set_defaults ((k, v) ∷ rows) env = set_defaults rows (set_default k v env)

abbrev pub disabled_defaults : List (String × String)
disabled_defaults = ("LANGCHAIN_TRACING_V2", "false") ∷ []

abbrev pub enabled_defaults : Settings → List (String × String)
enabled_defaults s =
    ("LANGCHAIN_TRACING_V2", "true")
    ∷ ("LANGCHAIN_API_KEY", s.langchain_api_key)
    ∷ ("LANGCHAIN_PROJECT", s.langchain_project)
    ∷ ("LANGCHAIN_ENDPOINT", s.langchain_endpoint)
    ∷ ("LANGSMITH_TRACING", "true")
    ∷ ("LANGSMITH_API_KEY", s.langchain_api_key)
    ∷ ("LANGSMITH_PROJECT", s.langchain_project)
    ∷ ("LANGSMITH_ENDPOINT", s.langchain_endpoint)
    ∷ []

-- The module's flag `_configured` and the environment.
pub record Process : Type 0 where
  pub environ : Environ
  pub configured : Bool

unfoldable pub configure_tracing : Settings → Process → Bool × Process
unfolding tracing_enabled set_defaults
configure_tracing s p =
    if tracing_enabled s
    then (true, record { environ = set_defaults (enabled_defaults s) p.environ; configured = true })
    else (false, record { environ = set_defaults disabled_defaults p.environ; configured = true })

-- A collected run, as far as it is read; an id is a text.
pub record Run : Type 0 where
  pub id : Option String
  pub name : Option String
  pub run_type : Option String
  pub parent_run_id : Option String

abbrev pub is_text : String → Option String → Bool
is_text t none = false
is_text t (some s) = str_eq s t

abbrev pub is_root : Run → Bool
is_root run = is_text root_run_name run.name

abbrev pub is_outer_chain : Run → Bool
is_outer_chain run = is_text "chain" run.run_type && not (is_some run.parent_run_id)

-- `runs[-1]`
unfoldable pub last : List Run → Option Run
last [] = none
last (run ∷ []) = some run
last (run ∷ r ∷ runs) = last (r ∷ runs)

-- The named run, else the last outermost chain, else the last run.
unfoldable pub select_from : List Run → Option Run
unfolding last
select_from traced = elim (find? is_root traced) [
  | some run ↦ some run
  | none ↦ elim (last (filter is_outer_chain traced)) [ some run ↦ some run | none ↦ last traced ]
]

-- `_select_root`
unfoldable pub select_root : List Run → Option Run
unfolding select_from
select_root [] = none
select_root (run ∷ runs) = select_from (run ∷ runs)

-- `text.rstrip("/")`
unfoldable pub rstrip_slash : String → String
rstrip_slash String.[] = ""
rstrip_slash (String.◌∷◌ c s) =
    let rest = rstrip_slash s in
    if is_empty rest && is_prefix "/" (String.◌∷◌ c s) then "" else String.◌∷◌ c rest

-- `text.removesuffix(suffix)`
unfoldable pub remove_suffix : String → String → String
remove_suffix suffix String.[] = ""
remove_suffix suffix (String.◌∷◌ c s) =
    let rest = remove_suffix suffix s in
    if str_eq (String.◌∷◌ c s) suffix then "" else String.◌∷◌ c rest

-- The address that is built where the SDK has none.
unfoldable pub constructed_url : Settings → String → String
unfolding rstrip_slash remove_suffix replace
constructed_url s run_id =
    let host =
      remove_suffix "/api" (rstrip_slash (replace "api.smith" "smith" s.langchain_endpoint)) in
    host <> ("/o/-/projects/p/" <> (s.langchain_project <> ("/r/" <> run_id)))

-- `_url_for_run`, where `get_run_url` is the SDK's client, which may raise
unfoldable pub url_for_run : Settings → (Run → Result (Option String)) → Run → Option String
unfolding constructed_url
url_for_run s get_run_url run = elim (truthy run.id) [
  | none ↦ none
  | some run_id ↦ elim (get_run_url run) [
    | ok url ↦ url
    | raised e ↦ some (constructed_url s run_id)
  ]
]

-- `TraceHandle`
pub record TraceHandle : Type 0 where
  pub run_id : Option String
  pub url : Option String

abbrev pub empty_handle : TraceHandle
empty_handle = record { run_id = none; url = none }

-- What the SDK does around a block: it may be missing, and reading the runs may raise.
pub record Collector : Type 0 where
  pub available : Bool
  pub traced_runs : Result (List Run)
  pub get_run_url : Run → Result (Option String)

-- The handle once the block has ended without an exception.
unfoldable pub filled_handle : Settings → Collector → TraceHandle
unfolding select_root url_for_run
filled_handle s c = elim c.traced_runs [
  | raised e ↦ empty_handle
  | ok traced ↦ elim (select_root traced) [
    | none ↦ empty_handle
    | some root ↦ record { run_id = truthy root.id; url = url_for_run s c.get_run_url root }
  ]
]

-- `trace_run` around a block: the block's result, and the handle as the block's caller finds it.
unfoldable pub trace_run : {A : Type 0} → Settings → Collector → Result A → Result A × TraceHandle
unfolding tracing_enabled filled_handle
trace_run s c (raised e) = (raised e, empty_handle)
trace_run s c (ok a) =
    (ok a, if tracing_enabled s && c.available then filled_handle s c else empty_handle)
