-- ===== src/Db/Wal/Open.antt =====
-- `Wal::Open` from the path on. Unlike that of the page storage it empties a file that is there
-- where the file cannot be opened for reading.
use nexus_db.Prelude.{ℕ, not, Option, none, some, List, [], if◌then◌else◌}
use nexus_db.Db.Status.{DbError}
use nexus_db.Db.Opening.{Opening}
use nexus_db.Db.Wal.{Wal, open_log}

-- The bytes of a file that `std::ios::app` makes where there is none.
abbrev pub content : Option (List ℕ) → List ℕ
content none = []
content (some bytes) = bytes

-- The end of `Open`, of the file that was opened.
unfoldable pub open_file : List ℕ → DbError × Option Wal × Option (List ℕ)
open_file bytes = let (code, wal) = open_log bytes in (code, wal, some bytes)

-- `Wal::Open` into a pointer that is not NULL: the code, the log, and the file at the path.
unfoldable pub open_path : Opening → Option (List ℕ) → DbError × Option Wal × Option (List ℕ)
open_path o file =
    if not o.named
    then (DbError.invalid_argument, none, file)
    else if o.opens
    then open_file (content file)
    else if not o.creates
    then (DbError.io_error, none, file)
    else if not o.reopens
    then (DbError.io_error, none, some [])
    else open_file []
