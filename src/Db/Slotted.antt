-- ===== src/Db/Slotted.antt =====
-- src/db/record/slotted_page.cpp: variable-length records in one page. The functions are on the
-- page's bytes; `on_page` adds the dirty mark and the NULL page.
pub mod Layout
pub mod Edit
pub mod Insert
pub mod Change
pub mod Relocate
pub mod Pack
pub mod Compact
pub mod Space
pub mod Contract
pub mod Calls
pub mod Reads
use nexus_db.Prelude.{
  ℕ, zero, suc, ◌+◌, ◌-◌, ◌*◌, Bool, true, false, not, ◌&&◌, ◌||◌, Option, none, some, List, [],
  ◌∷◌, ltb, leb, ◌==◌, if◌then◌else◌, length,
}
use nexus_db.Db.Status.{DbError, is_ok}
use nexus_db.Db.Page.{Bytes, Page, page_size, put, read_u16, write_u16, copy, clear, bytes_at}

abbrev pub header_size : ℕ
header_size = 16

abbrev pub slot_entry_size : ℕ
slot_entry_size = 4

abbrev pub max_record_size : ℕ
max_record_size = page_size - header_size - slot_entry_size

abbrev pub slot_count : Bytes → ℕ
slot_count d = read_u16 d 6

abbrev pub free_start : Bytes → ℕ
free_start d = read_u16 d 8

abbrev pub free_end : Bytes → ℕ
free_end d = read_u16 d 10

-- `kHeaderSize + i * kSlotEntrySize`: slot i, and the end of a directory of i slots.
abbrev pub entry : ℕ → ℕ
entry i = header_size + i * slot_entry_size

abbrev pub slot_offset : Bytes → ℕ → ℕ
slot_offset d i = read_u16 d (entry i)

abbrev pub slot_length : Bytes → ℕ → ℕ
slot_length d i = read_u16 d (entry i + 2)

unfoldable pub has_magic : Bytes → Bool
has_magic d = d 0 == 0x4e && (d 1 == 0x53 && (d 2 == 0x50 && d 3 == 0x31))

-- `SlottedPage::Init`, of a page with these bytes.
unfoldable pub init : Bytes → Bytes
init d =
    let zeroed = clear d 0 page_size in
    let magic = put (put (put (put zeroed 0 0x4e) 1 0x53) 2 0x50) 3 0x31 in
    let sized = write_u16 (write_u16 magic 4 1) 6 0 in
    write_u16 (write_u16 (write_u16 sized 8 header_size) 10 page_size) 12 0

-- The loop of `Validate`, with the rounds that are left and the slot.
unfoldable pub check_slots : Bytes → ℕ → ℕ → ℕ → DbError
check_slots d low zero i = DbError.ok
check_slots d low (suc rounds) i =
    let rest = check_slots d low rounds (i + 1) in
    if slot_length d i == 0
    then rest
    else if ltb (slot_offset d i) low
    then DbError.invalid_argument
    else if ltb page_size (slot_offset d i + slot_length d i)
    then DbError.invalid_argument
    else rest

-- `SlottedPage::Validate`
unfoldable pub validate : Bytes → DbError
validate d =
    let dir_end = entry (slot_count d) in
    if not (has_magic d)
    then DbError.invalid_argument
    else if not (read_u16 d 4 == 1)
    then DbError.invalid_argument
    else if ltb page_size dir_end
    then DbError.invalid_argument
    else if ltb (free_start d) dir_end
    then DbError.invalid_argument
    else if ltb (free_end d) (free_start d)
    then DbError.invalid_argument
    else if ltb page_size (free_end d)
    then DbError.invalid_argument
    else check_slots d (free_end d) (slot_count d) 0

-- `SlottedPage::free_bytes`
unfoldable pub free_bytes : Bytes → ℕ
free_bytes d =
    if ltb (free_end d) (free_start d) || ltb page_size (free_end d)
    then 0
    else free_end d - free_start d

-- The loop of `SlottedPage::live_count`.
unfoldable pub count_live : Bytes → ℕ → ℕ → ℕ
count_live d zero i = 0
count_live d (suc rounds) i =
    let rest = count_live d rounds (i + 1) in if slot_length d i == 0 then rest else suc rest

unfoldable pub live_count : Bytes → ℕ
live_count d = count_live d (slot_count d) 0

-- The writes of `Insert`, of a record `xs` into the new slot `count`.
unfoldable pub place : Bytes → List ℕ → Bytes
place d xs =
    let count = slot_count d in
    let new_offset = free_end d - length xs in
    let packed = copy d new_offset xs in
    let listed =
      write_u16 (write_u16 packed (entry count) new_offset) (entry count + 2) (length xs) in
    let counted = write_u16 listed 6 (count + 1) in
    write_u16 (write_u16 counted 8 (free_start d + slot_entry_size)) 10 new_offset

-- `SlottedPage::Insert` of a record that is not NULL. The slot is `none` for kInvalidSlot.
unfoldable pub insert : List ℕ → Bytes → DbError × Option ℕ × Bytes
insert xs d =
    let code = validate d in
    if length xs == 0
    then (DbError.invalid_argument, none, d)
    else if ltb max_record_size (length xs)
    then (DbError.buffer_full, none, d)
    else if not (is_ok code)
    then (code, none, d)
    else if ltb (free_end d - free_start d) (slot_entry_size + length xs)
    then (DbError.buffer_full, none, d)
    else (DbError.ok, some (slot_count d), place d xs)

-- `SlottedPage::Read` into pointers that are not NULL: the bytes that `*out_data` and `*out_len`
-- say.
unfoldable pub read : ℕ → Bytes → DbError × Option (List ℕ)
read slot d =
    let code = validate d in
    if not (is_ok code)
    then (code, none)
    else if leb (slot_count d) slot
    then (DbError.invalid_argument, none)
    else if slot_length d slot == 0
    then (DbError.not_found, none)
    else (DbError.ok, some (bytes_at d (slot_offset d slot) (slot_length d slot)))

-- The writes of `Update` in place.
unfoldable pub rewrite : ℕ → List ℕ → Bytes → Bytes
rewrite slot xs d = write_u16 (copy d (slot_offset d slot) xs) (entry slot + 2) (length xs)

-- The writes of `Update` into the free region.
unfoldable pub relocate : ℕ → List ℕ → Bytes → Bytes
relocate slot xs d =
    let new_offset = free_end d - length xs in
    let packed = copy d new_offset xs in
    write_u16 (write_u16 (write_u16 packed (entry slot) new_offset) (entry slot + 2) (length xs)) 10
      new_offset

-- `SlottedPage::Update` with a record that is not NULL.
unfoldable pub update : ℕ → List ℕ → Bytes → DbError × Bytes
update slot xs d =
    let code = validate d in
    if length xs == 0
    then (DbError.invalid_argument, d)
    else if ltb max_record_size (length xs)
    then (DbError.buffer_full, d)
    else if not (is_ok code)
    then (code, d)
    else if leb (slot_count d) slot
    then (DbError.invalid_argument, d)
    else if slot_length d slot == 0
    then (DbError.not_found, d)
    else if leb (length xs) (slot_length d slot)
    then (DbError.ok, rewrite slot xs d)
    else if ltb (free_end d - free_start d) (length xs)
    then (DbError.buffer_full, d)
    else (DbError.ok, relocate slot xs d)

-- The writes of `Delete`.
unfoldable pub bury : ℕ → Bytes → Bytes
bury slot d = write_u16 (write_u16 d (entry slot) 0) (entry slot + 2) 0

-- `SlottedPage::Delete`
unfoldable pub delete : ℕ → Bytes → DbError × Bytes
delete slot d =
    let code = validate d in
    if not (is_ok code)
    then (code, d)
    else if leb (slot_count d) slot
    then (DbError.invalid_argument, d)
    else if slot_length d slot == 0
    then (DbError.not_found, d)
    else (DbError.ok, bury slot d)

-- The first loop of `Compact`: the bytes of the live records, `none` if they exceed the page.
unfoldable pub total_live : Bytes → ℕ → ℕ → ℕ → Option ℕ
total_live d zero i total = some total
total_live d (suc rounds) i total =
    let skipped = total_live d rounds (i + 1) total in
    let added = total_live d rounds (i + 1) (total + slot_length d i) in
    if slot_length d i == 0
    then skipped
    else if ltb page_size (total + slot_length d i)
    then none
    else added

-- What the second loop of `Compact` changes.
pub record Packing : Type 0 where
  pub page : Bytes
  pub scratch : Bytes
  pub dest_end : ℕ

unfoldable pub pack_slot : ℕ → Packing → Packing
pack_slot i p =
    let dest = p.dest_end - slot_length p.page i in
    if slot_length p.page i == 0 then p else record {
      scratch = copy p.scratch dest (bytes_at p.page (slot_offset p.page i) (slot_length p.page i));
      page = write_u16 p.page (entry i) dest;
      dest_end = dest;
    }

unfoldable pub pack : ℕ → ℕ → Packing → Packing
pack zero i p = p
pack (suc rounds) i p = pack rounds (i + 1) (pack_slot i p)

-- The writes of `Compact`. `scratch` is what the uninitialised array holds.
unfoldable pub repack : Bytes → Bytes → Bytes
repack scratch d =
    let p = pack (slot_count d) 0 (record { page = d; scratch = scratch; dest_end = page_size }) in
    let region = page_size - p.dest_end in
    let moved =
      if ltb 0 region
      then copy p.page p.dest_end (bytes_at p.scratch p.dest_end region)
      else p.page in
    let ended = write_u16 moved 10 p.dest_end in
    if ltb (free_start d) p.dest_end
    then clear ended (free_start d) (p.dest_end - free_start d)
    else ended

-- `SlottedPage::Compact`
unfoldable pub compact : Bytes → Bytes → DbError × Bytes
compact scratch d =
    let code = validate d in
    if not (is_ok code) then (code, d) else elim (total_live d (slot_count d) 0 0) [
      | none ↦ (DbError.invalid_argument, d)
      | some total ↦
          if ltb (page_size - free_start d) total
          then (DbError.invalid_argument, d)
          else (DbError.ok, repack scratch d)
    ]

-- The loop of `Scan`: a callback that answers `false` ends it.
unfoldable pub scan_slots : {C : Type 0} → (ℕ → List ℕ → C → Bool × C) → Bytes → ℕ → ℕ → C → C
scan_slots fn d zero i ctx = ctx
scan_slots fn d (suc rounds) i ctx =
    let xs = bytes_at d (slot_offset d i) (slot_length d i) in
    let skipped = scan_slots fn d rounds (i + 1) ctx in
    let visited = scan_slots fn d rounds (i + 1) (fn i xs ctx).1 in
    if slot_length d i == 0
    then skipped
    else if not (fn i xs ctx).0
    then (fn i xs ctx).1
    else visited

-- `SlottedPage::Scan`; the callback `none` is NULL.
unfoldable pub scan : {C : Type 0} → Option (ℕ → List ℕ → C → Bool × C) → Bytes → C → DbError × C
scan none d ctx = (DbError.invalid_argument, ctx)
scan (some fn) d ctx =
    let code = validate d in
    if not (is_ok code) then (code, ctx) else (DbError.ok, scan_slots fn d (slot_count d) 0 ctx)

-- A change of the page behind `page_`, which is not NULL here: `MarkDirty` where it succeeded.
unfoldable pub on_page : (Bytes → DbError × Option ℕ × Bytes) → Page → DbError × Option ℕ × Page
on_page change page =
    let (code, slot, d) = change page.bytes in
    (code, slot, record { id = page.id; dirty = is_ok code || page.dirty; bytes = d })
