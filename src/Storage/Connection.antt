-- ===== src/Storage/Connection.antt =====
-- The connections of storage/db.py: every function of storage/repo.py opens one of its own,
-- commits and closes it. `sqlite3` is part of Python's library: a file holds what was committed to
-- it, a connection to ":memory:" has a database of its own that ends with it, and a statement on a
-- table that was never created raises.
pub mod Laws
use deskfleet_ticketwarden.Base.{
  Bool, true, false, String, Option, none, some, List, [], ◌∷◌, ◌<>◌, or_else, truthy, str_eq,
  if◌then◌else◌,
}
use deskfleet_ticketwarden.Action.{continue, Result, ok, raised, exception}
use deskfleet_ticketwarden.Settings.{Settings}
use deskfleet_ticketwarden.Storage
use deskfleet_ticketwarden.Storage.{init_db}

-- The database files, by path; one whose tables were not created yet has none.
abbrev pub Disk : Type 0
Disk = String → Option Storage.Database

abbrev pub memory : String
memory = ":memory:"

abbrev pub no_rows : Storage.Database
no_rows = record {
  tickets = [];
  tool_calls = [];
  security_events = [];
  catalog = record { products = []; orders = []; order_items = [] };
}

-- A statement, with the table that it names.
pub record Statement : Type 0 where
  pub table : String
  pub change : Storage.Database → Storage.Database

module _ (s : Settings) (db_path : Option String) where
  -- `db_path or settings.sqlite_path`
  unfoldable pub path_for : String
  path_for = or_else (truthy db_path) s.sqlite_path

  -- The tables that a new connection finds.
  unfoldable pub get_connection : Disk → Option Storage.Database
  unfolding path_for
  get_connection disk = if str_eq path_for memory then none else disk path_for

  -- The disk once a connection is closed that has committed these tables.
  unfoldable pub close : Storage.Database → Disk → Disk
  unfolding path_for
  close db disk path =
      if str_eq path_for memory
      then disk path
      else if str_eq path_for path
      then some db
      else disk path

  -- `init_db` over its connection
  unfoldable pub init_file : Disk → Disk
  unfolding get_connection close init_db
  init_file disk = close (init_db (or_else (get_connection disk) no_rows)) disk

  -- A function of repo.py that writes.
  unfoldable pub execute : Statement → Disk → Result {0} Unit × Disk
  unfolding get_connection close
  execute statement disk = elim (get_connection disk) [
    | none ↦ (raised (exception ("no such table: " <> statement.table)), disk)
    | some db ↦ (ok tt, close (statement.change db) disk)
  ]

  -- One after the other, up to the first that raises.
  unfoldable pub execute_all : List Statement → Disk → Result {0} Unit × Disk
  unfolding execute
  execute_all [] disk = (ok tt, disk)
  execute_all (statement ∷ statements) disk =
      continue (execute statement disk) (λ done. execute_all statements)
