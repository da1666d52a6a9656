-- ===== src/Storage/Connection/Laws.antt =====
-- Writes over connections of their own against one database (storage/db.py, storage/repo.py).
use deskfleet_ticketwarden.Base.{false, ◌≡◌, String, Option, some, List, [], ◌∷◌, str_eq}
use deskfleet_ticketwarden.Settings.{Settings}
use deskfleet_ticketwarden.Storage
use deskfleet_ticketwarden.Storage.Connection.{Disk, Statement, path_for}

-- The statements on one database.
abbrev pub change_all : List Statement → Storage.Database → Storage.Database
change_all [] db = db
change_all (statement ∷ statements) db = change_all statements (statement.change db)

module _ (s : Settings) (db_path : Option String) where
  abbrev path : String
  path = path_for s db_path

  -- A disk that differs from another one in this file only, which holds these tables.
  record Holds (db : Storage.Database) (disk before : Disk) : Type 0 where
    here : disk path ≡ some db
    elsewhere : (p : String) → str_eq path p ≡ false → disk p ≡ before p
