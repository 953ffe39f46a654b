-- ===== src/Tests/Slotted.antt =====
-- A slotted page with two records, and the theorems on it.
use nexus_db.Prelude.{
  ℕ, ◌-◌, ◌≤◌, ◌≡◌, refl, Bool, false, ◌||◌, none, some, List, [], ◌∷◌, leb, if◌then◌else◌, length,
}
use nexus_db.Db.Status.{DbError, is_ok}
use nexus_db.Db.Page.{read_u16, write_u16, copy, bytes_at, Bytes, Page, page_size}
use nexus_db.Db.Slotted.{
  insert, on_page, update, validate, has_magic, check_slots, place, delete, relocate, bury, init,
  read, compact, free_bytes, free_start, slot_count, scan, live_count,
}
use nexus_db.Db.Slotted.Layout.{WellFormed, record_at}
use nexus_db.Db.Slotted.Pack.{sum_live}
use nexus_db.Db.Slotted.Contract.{Request, perform, call, Served}
use nexus_db.Db.Slotted.Calls.{call-Served}
use nexus_db.Db.Slotted.Reads.{
  init-WellFormed, read-contents, looked_up, visit, listed, scan-listed, free_bytes-compact,
}

abbrev zeros : Bytes
zeros = λ _. 0

abbrev fresh : Page
fresh = record { id = 3; dirty = false; bytes = init zeros }

abbrev one_record : Page
one_record = (call zeros (Request.add_record (7 ∷ 8 ∷ 9 ∷ [])) fresh).2

one_record-WellFormed : WellFormed one_record.bytes
one_record-WellFormed =
    (call-Served zeros (Request.add_record (7 ∷ 8 ∷ 9 ∷ [])) fresh (init-WellFormed zeros).0).0.kept

abbrev two_records : Page
two_records = (call zeros (Request.add_record (5 ∷ [])) one_record).2

two_records-WellFormed : WellFormed two_records.bytes
two_records-WellFormed =
    (call-Served zeros (Request.add_record (5 ∷ [])) one_record one_record-WellFormed).0.kept

-- Slot 1 grows and moves; slot 0 is then deleted.
abbrev grown : Page
grown = (call zeros (Request.set_record 1 (1 ∷ 2 ∷ [])) two_records).2

abbrev shrunk : Page
shrunk = (call zeros (Request.drop_record 0) grown).2

grown_code : (call zeros (Request.set_record 1 (1 ∷ 2 ∷ [])) two_records).0 ≡ DbError.ok
unfolding call perform on_page update validate has_magic insert init write_u16 read_u16 check_slots
    place copy
grown_code = refl

grown_slots : (record_at shrunk.bytes 0 ≡ none) × (record_at shrunk.bytes 1 ≡ some (1 ∷ 2 ∷ []))
unfolding call perform on_page update validate has_magic insert init write_u16 read_u16 check_slots
    place copy record_at delete relocate bury bytes_at
grown_slots = (refl, refl)

call-Served_example :
    let (code, slot, page') = call zeros (Request.set_record 1 (1 ∷ 2 ∷ [])) two_records in
    Served (Request.set_record 1 (1 ∷ 2 ∷ [])) two_records.bytes code slot page'.bytes
    × (page'.dirty ≡ (is_ok code || two_records.dirty))
    × (page'.id ≡ two_records.id)
call-Served_example =
    call-Served zeros (Request.set_record 1 (1 ∷ 2 ∷ [])) two_records two_records-WellFormed

read-contents_example : read 1 two_records.bytes ≡ (
    if leb (slot_count two_records.bytes) 1
    then (DbError.invalid_argument, none)
    else looked_up (record_at two_records.bytes 1))
read-contents_example = read-contents two_records.bytes 1 two_records-WellFormed.layout

-- A callback that keeps the slots it is called for and stops at the first.
abbrev first_slot : ℕ → List ℕ → List ℕ → Bool × List ℕ
first_slot i xs seen = (false, i ∷ seen)

scan-listed_example :
    (scan (some first_slot) two_records.bytes [] ≡ (
      DbError.ok,
      visit first_slot (listed (record_at two_records.bytes) (slot_count two_records.bytes) 0) [],
    ))
    × (live_count two_records.bytes
        ≡ length (listed (record_at two_records.bytes) (slot_count two_records.bytes) 0))
scan-listed_example = scan-listed first_slot two_records.bytes [] two_records-WellFormed.layout

free_bytes-compact_example :
    (free_bytes (compact zeros two_records.bytes).1
      ≡ page_size
        - free_start two_records.bytes
        - sum_live two_records.bytes (slot_count two_records.bytes) 0)
    × (free_bytes two_records.bytes ≤ free_bytes (compact zeros two_records.bytes).1)
free_bytes-compact_example = free_bytes-compact zeros two_records.bytes two_records-WellFormed
