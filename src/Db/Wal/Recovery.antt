-- ===== src/Db/Wal/Recovery.antt =====
-- `Recover`: the storage gets the last image of every page that the log names.
use nexus_db.Prelude.{ℕ, ◌≡◌, Bool, true, Option, none, some, List, [], ◌∷◌, ◌==◌, if◌then◌else◌}
use nexus_db.Db.Status.{is_ok}
use nexus_db.Db.Page.{Bytes}
use nexus_db.Db.Disk.{Disk}
use nexus_db.Db.Wal.{Entry, Wal, image}

unfoldable pub or_else : Option Entry → Option Entry → Option Entry
or_else none y = y
or_else (some x) y = some x

-- The last record of a page.
unfoldable pub latest : List Entry → ℕ → Option Entry
latest [] id = none
latest (e ∷ es) id = or_else (latest es id) (if id == e.page_id then some e else none)

-- The bytes of a page after a record, if there is one.
unfoldable pub restored : Option Entry → Bytes → Bytes
restored none old = old
restored (some e) old = (image e).bytes

-- The storage has the page of each record, and its write succeeds, when the records are applied in
-- turn.
abbrev pub Applies : (disk : Disk) → (ℕ → disk.World → Bool) → List Entry → disk.World → Type 0
Applies disk page_exists [] w = Unit
Applies disk page_exists (e ∷ es) w =
    (page_exists e.page_id w ≡ true)
    × (is_ok (disk.write_page (image e) w).0 ≡ true)
    × Applies disk page_exists es (disk.write_page (image e) w).1
