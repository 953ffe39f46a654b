-- ===== src/Db/Slotted/Contract.antt =====
-- What a client of slotted_page.h sees: a directory of slots, of which some have a record. The
-- header promises that a slot keeps its id and that a refused call changes nothing.
use nexus_db.Prelude.{ℕ, ◌+◌, ◌≡◌, Option, none, some, List, ltb, leb, ◌==◌, if◌then◌else◌, length}
use nexus_db.Db.Status.{DbError, is_ok}
use nexus_db.Db.Page.{Bytes, Page}
use nexus_db.Db.Slotted.{
  on_page, slot_count, max_record_size, slot_entry_size, free_bytes, insert, update, delete,
  compact,
}
use nexus_db.Db.Slotted.Layout.{WellFormed, record_at}

pub data Request : Type 0 where
  add_record : List ℕ → Request
  set_record : ℕ → List ℕ → Request
  drop_record : ℕ → Request
  pack_records : Request

-- A call on the page's bytes: its code, the slot that it reports, the bytes. `scratch` is what the
-- uninitialised array of `Compact` holds.
unfoldable pub perform : Bytes → Request → Bytes → DbError × Option ℕ × Bytes
perform scratch (Request.add_record xs) d = insert xs d
perform scratch (Request.set_record slot xs) d =
    let (code, d') = update slot xs d in (code, none, d')
perform scratch (Request.drop_record slot) d = let (code, d') = delete slot d in (code, none, d')
perform scratch Request.pack_records d = let (code, d') = compact scratch d in (code, none, d')

-- The call on a page.
unfoldable pub call : Bytes → Request → Page → DbError × Option ℕ × Page
call scratch r page = on_page (perform scratch r) page

pub record Contents : Type 0 where
  pub count : ℕ
  pub at : ℕ → Option (List ℕ)

abbrev pub contents : Bytes → Contents
contents d = record { count = slot_count d; at = record_at d }

-- A request that is granted.
unfoldable pub granted : Request → Contents → Contents
granted (Request.add_record xs) c = record {
  count = c.count + 1;
  at = λ i. if i == c.count then some xs else c.at i;
}
granted (Request.set_record slot xs) c = record {
  count = c.count;
  at = λ i. if i == slot then some xs else c.at i;
}
granted (Request.drop_record slot) c = record {
  count = c.count;
  at = λ i. if i == slot then none else c.at i;
}
granted Request.pack_records c = c

-- The code for a new record of a slot that has `was`, with `free` bytes between directory and
-- records.
unfoldable pub replaced : ℕ → ℕ → Option (List ℕ) → DbError
replaced free n none = DbError.not_found
replaced free n (some was) =
    if leb n (length was)
    then DbError.ok
    else if ltb free n
    then DbError.buffer_full
    else DbError.ok

unfoldable pub found : Option (List ℕ) → DbError
found none = DbError.not_found
found (some was) = DbError.ok

-- The code that a request gets.
unfoldable pub answer : Request → ℕ → Contents → DbError
answer (Request.add_record xs) free c =
    if length xs == 0
    then DbError.invalid_argument
    else if ltb max_record_size (length xs)
    then DbError.buffer_full
    else if ltb free (slot_entry_size + length xs)
    then DbError.buffer_full
    else DbError.ok
answer (Request.set_record slot xs) free c =
    if length xs == 0
    then DbError.invalid_argument
    else if ltb max_record_size (length xs)
    then DbError.buffer_full
    else if leb c.count slot
    then DbError.invalid_argument
    else replaced free (length xs) (c.at slot)
answer (Request.drop_record slot) free c =
    if leb c.count slot then DbError.invalid_argument else found (c.at slot)
answer Request.pack_records free c = DbError.ok

-- The page `after` has the contents `c`.
unfoldable pub Shows : Bytes → Contents → Type 0
Shows d c = (slot_count d ≡ c.count) × ((i : ℕ) → record_at d i ≡ c.at i)

-- The slot that a granted request reports.
unfoldable pub reported : Request → Contents → Option ℕ
reported (Request.add_record xs) c = some c.count
reported (Request.set_record slot xs) c = none
reported (Request.drop_record slot) c = none
reported Request.pack_records c = none

-- What a call promises: its code, the slot that it reports, and the page that it leaves.
pub record Served (r : Request) (d : Bytes) (code : DbError) (slot : Option ℕ) (d' : Bytes)
    : Type 0 where
  pub named : slot ≡ (if is_ok code then reported r (contents d) else none)
  pub answered : code ≡ answer r (free_bytes d) (contents d)
  pub shown : Shows d' (if is_ok code then granted r (contents d) else contents d)
  pub kept : WellFormed d'
