-- ===== src/Db/Storage.antt =====
-- src/db/storage/page_storage.cpp over the bytes of the database file, by their offset. What the
-- stream does in a call is an argument.
pub mod Machine
pub mod Written
pub mod Open
use nexus_db.Prelude.{
  ℕ, ◌+◌, ◌-◌, ◌*◌, ◌/◌, ◌%◌, ◌^◌, Bool, true, false, not, ◌&&◌, Option, none, some, ltb, leb, ◌==◌,
  if◌then◌else◌,
}
use nexus_db.Db.Status.{DbError, is_ok}
use nexus_db.Db.Page.{Bytes, Page, new_page, invalid_id, page_size}

pub record Store : Type 0 where
  pub open_now : Bool
  pub file_size : ℕ
  pub bytes : ℕ → ℕ

-- `PageOffset`
unfoldable pub page_offset : ℕ → ℕ
page_offset id = id * page_size

-- What `read` of a page behind `seekg` to an offset puts into a zeroed page.
unfoldable pub bytes_from : ℕ → (ℕ → ℕ) → Bytes
bytes_from offset file j = if ltb j page_size then file (offset + j) else 0

-- The file after a `write` of `n` bytes behind `seekp` to an offset.
unfoldable pub written_at : ℕ → ℕ → Bytes → (ℕ → ℕ) → ℕ → ℕ
written_at offset n d file k = if leb offset k && ltb k (offset + n) then d (k - offset) else file k

-- Whether the size of the file is read, whether a page is read, and after how many bytes a write
-- fails, if it does.
pub record Stream : Type 0 where
  pub stats : Bool
  pub reads : Bool
  pub fails_after : Option ℕ

-- The checks at the end of `PageStorage::Open`.
unfoldable pub open_store : Stream → ℕ → (ℕ → ℕ) → DbError × Option Store
open_store io size bytes =
    if not io.stats
    then (DbError.io_error, none)
    else if not (size % page_size == 0)
    then (DbError.io_error, none)
    else (DbError.ok, some (record { open_now = true; file_size = size; bytes = bytes }))

-- `PageStorage::NumPages` into a pointer that is not NULL.
unfoldable pub num_pages : Stream → Store → DbError × ℕ
num_pages io s =
    if not s.open_now
    then (DbError.bad_state, 0)
    else if not io.stats
    then (DbError.io_error, 0)
    else if not (s.file_size % page_size == 0)
    then (DbError.io_error, 0)
    else (DbError.ok, s.file_size / page_size % 2 ^ 32)

-- `PageStorage::PageExists`
unfoldable pub page_exists : Stream → ℕ → Store → Bool
page_exists io id s =
    let (code, count) = num_pages io s in if is_ok code then ltb id count else false

-- `PageStorage::ReadPage` into a page that is not NULL. The page counts where the code is kOk.
unfoldable pub read_page : Stream → ℕ → Store → DbError × Page
read_page io id s =
    let (code, count) = num_pages io s in
    if not s.open_now
    then (DbError.bad_state, new_page id)
    else if not (is_ok code)
    then (code, new_page id)
    else if leb count id
    then (DbError.not_found, new_page id)
    else if not io.reads
    then (DbError.io_error, new_page id)
    else (
      DbError.ok,
      record { id = id; dirty = false; bytes = bytes_from (page_offset id) s.bytes },
    )

-- The file after the first `n` bytes of a page were written, or all of them where it has no more.
unfoldable pub written : ℕ → Page → Store → Store
written n page s =
    let m = if ltb n page_size then n else page_size in
    record s { bytes = written_at (page_offset page.id) m page.bytes s.bytes }

-- The file with a whole page written.
unfoldable pub stored_page : Page → Store → Store
stored_page page s = written page_size page s

-- `PageStorage::WritePage`
unfoldable pub write_page : Stream → Page → Store → DbError × Store
write_page io page s =
    let (code, count) = num_pages io s in
    if page.id == invalid_id
    then (DbError.invalid_argument, s)
    else if not s.open_now
    then (DbError.bad_state, s)
    else if not (is_ok code)
    then (code, s)
    else if leb count page.id
    then (DbError.not_found, s)
    else elim io.fails_after [
      | some n ↦ (DbError.io_error, written n page s)
      | none ↦ (DbError.ok, stored_page page s)
    ]

-- The size of the file after `n` bytes of the page `id` were written.
unfoldable pub size_after : ℕ → ℕ → Store → ℕ
size_after n id s =
    let end_at = page_offset id + (if ltb n page_size then n else page_size) in
    if ltb s.file_size end_at then end_at else s.file_size

-- `PageStorage::AllocatePage` into a page that is not NULL; a write that fails may have made the
-- file longer.
unfoldable pub allocate_page : Stream → Store → DbError × Option Page × Store
allocate_page io s =
    let (code, count) = num_pages io s in
    let page = new_page count in
    if not s.open_now
    then (DbError.bad_state, none, s)
    else if not (is_ok code)
    then (code, none, s)
    else if count == invalid_id
    then (DbError.io_error, none, s)
    else elim io.fails_after [
      | some n ↦
          (DbError.io_error, none, record (written n page s) { file_size = size_after n count s })
      | none ↦ (
        DbError.ok,
        some page,
        record (stored_page page s) { file_size = size_after page_size count s },
      )
    ]

-- `PageStorage::Flush`, of a stream that flushes or fails.
unfoldable pub flush_store : Bool → Store → DbError
flush_store flushes s =
    if not s.open_now
    then DbError.bad_state
    else if not flushes
    then DbError.io_error
    else DbError.ok

-- `PageStorage::Close`
unfoldable pub close_store : Bool → Store → DbError × Store
close_store flushes s =
    if not s.open_now
    then (DbError.ok, s)
    else (flush_store flushes s, record s { open_now = false })
