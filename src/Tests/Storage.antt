-- ===== src/Tests/Storage.antt =====
-- A database file of two pages, a page that is written to it, and the theorem on its reading.
use nexus_db.Prelude.{ℕ, ◌*◌, ◌≡◌, refl, true, false, some, none, ◌==◌, if◌then◌else◌}
use nexus_db.Db.Status.{DbError}
use nexus_db.Db.Page.{Page, clip}
use nexus_db.Db.Storage.{
  Store, Stream, open_store, num_pages, page_exists, read_page, write_page, allocate_page,
  flush_store, close_store, written, stored_page, size_after, page_offset, written_at,
}
use nexus_db.Db.Opening.{Opening}
use nexus_db.Db.Storage.Open.{DbFile, Opened, open_path, open_path-Opened}
use nexus_db.Db.Storage.Written.{write_page-read_page}

abbrev healthy : Stream
healthy = record { stats = true; reads = true; fails_after = none }

abbrev torn : Stream
torn = record { stats = true; reads = true; fails_after = some 3 }

abbrev two_pages : Store
two_pages = record { open_now = true; file_size = 2 * 4096; bytes = λ k. 7 }

abbrev sevens : ℕ → Page
sevens id = record { id = id; dirty = true; bytes = λ j. 9 }

odd_size_is_refused : (open_store healthy 4097 (λ k. 0)).0 ≡ DbError.io_error
unfolding open_store
odd_size_is_refused = refl

pages_are_counted : num_pages healthy two_pages ≡ (DbError.ok, 2)
unfolding num_pages
pages_are_counted = refl

last_page_exists : page_exists healthy 1 two_pages ≡ true
unfolding page_exists num_pages
last_page_exists = refl

page_beyond_the_end : (read_page healthy 2 two_pages).0 ≡ DbError.not_found
unfolding read_page num_pages
page_beyond_the_end = refl

torn_write_keeps_the_rest : (write_page torn (sevens 1) two_pages).1.bytes 4099 ≡ 7
unfolding write_page num_pages written written_at page_offset
torn_write_keeps_the_rest = refl

write_stays_in_its_place :
    ((write_page healthy (sevens 1) two_pages).1.bytes 4095 ≡ 7)
    × ((write_page healthy (sevens 1) two_pages).1.bytes 4096 ≡ 9)
unfolding write_page num_pages stored_page written written_at page_offset
write_stays_in_its_place = (refl, refl)

allocated_page_follows : num_pages healthy (allocate_page healthy two_pages).2 ≡ (DbError.ok, 3)
unfolding allocate_page num_pages stored_page size_after written page_offset
allocated_page_follows = refl

closed_storage_refuses : flush_store true (close_store true two_pages).1 ≡ DbError.bad_state
unfolding close_store flush_store
closed_storage_refuses = refl

write_page-read_page_example : read_page healthy 1 (write_page healthy (sevens 1) two_pages).1 ≡ (
    if 1 == 1
    then (DbError.ok, record { id = 1; dirty = false; bytes = clip (λ j. 9) })
    else read_page healthy 1 two_pages)
unfolding write_page num_pages stored_page
write_page-read_page_example =
    write_page-read_page healthy healthy (sevens 1) two_pages 1 refl refl refl

abbrev locked : Opening
locked = record { named = true; opens = false; looks = true; creates = true; reopens = true }

abbrev two_sevens : DbFile
two_sevens = record { size = 2 * 4096; bytes = λ k. 7 }

-- A file that cannot be opened for reading and writing stays as it is.
open_path-Opened_example : Opened (some two_sevens) DbError.io_error none (some two_sevens)
unfolding open_path
open_path-Opened_example = open_path-Opened locked healthy (some two_sevens)
