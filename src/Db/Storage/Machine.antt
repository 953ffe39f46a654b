-- ===== src/Db/Storage/Machine.antt =====
-- The page storage and the write-ahead log under the buffer pool, with what their streams do.
use nexus_db.Prelude.{
  ℕ, ◌+◌, ◌≤◌, ◌≡◌, ◌≢◌, refl, ◌∙◌, inl, inr, Bool, true, false, Option, List, ltb, leb, ◌==◌,
  if◌then◌else◌, Bool-cases, Option-cases, arith,
}
use mathlib.Core.Path.{fun_ext}
use nexus_db.Db.Status.{is_ok}
use nexus_db.Db.Page.{Bytes, Page, Whole, clip, invalid_id, page_size}
use nexus_db.Db.Disk.{Disk, Honest}
use nexus_db.Db.Wal.{Wal, before_page_write}
use nexus_db.Db.Storage.{
  Store, Stream, num_pages, read_page, write_page, written, stored_page, page_offset, bytes_from,
}
use nexus_db.Db.Storage.Written.{bytes_from-written_at, bytes_from-elsewhere}

-- The streams' behaviour is given for each call in turn.
pub record Machine : Type 0 where
  pub store : Store
  pub wal : Wal
  pub turn : ℕ
  pub io : ℕ → Stream
  pub log_io : ℕ → Option (List ℕ) × Bool

-- What a pool with the log as its sink works on.
abbrev pub engine_disk : Disk
engine_disk = record {
  World = Machine;
  read_page = λ id m.
      let (code, page) = read_page (m.io m.turn) id m.store in
      (code, page, record m { turn = m.turn + 1 });
  write_page = λ page m.
      let (code, store) = write_page (m.io m.turn) page m.store in
      (code, record m { store = store; turn = m.turn + 1 });
  before_page_write = λ page m.
      let (outcome, flushes) = m.log_io m.turn in
      let (code, wal) = before_page_write outcome flushes page m.wal in
      (code, record m { wal = wal; turn = m.turn + 1 });
}

-- The bytes at the place of a page.
abbrev pub page_in : Store → ℕ → Bytes
page_in s id = bytes_from (page_offset id) s.bytes

page_in-Whole : (s : Store) (id : ℕ) → Whole (page_in s id)
unfolding bytes_from
page_in-Whole s id j le = let outside : ltb j page_size ≡ false = ground arith in rw outside refl

pub clip-Whole : (d : Bytes) → Whole d → clip d ≡ d
clip-Whole d whole = fun_ext (λ j. elim (Bool-cases (ltb j page_size)) [
  | inl e ↦ rw e refl
  | inr e ↦
      let outside : page_size ≤ j = ground arith in
      let zero_there = whole j outside in rw (e, zero_there) refl
])

read_ok :
    (io : Stream) (id : ℕ) (s : Store)
    → is_ok (read_page io id s).0 ≡ true
    → ((read_page io id s).1.id ≡ id) × ((read_page io id s).1.bytes ≡ page_in s id)
unfolding read_page
read_ok io id s = elim (Bool-cases s.open_now) [
  | inr e ↦ rw e (λ ok. cc)
  | inl e1 ↦ elim (Bool-cases (is_ok (num_pages io s).0)) [
    | inr e ↦ simp (e1, e) (λ ok. cc)
    | inl e2 ↦ elim (Bool-cases (leb (num_pages io s).1 id)) [
      | inl e ↦ simp (e1, e2, e) (λ ok. cc)
      | inr e3 ↦ elim (Bool-cases io.reads) [
        | inr e ↦ simp (e1, e2, e3, e) (λ ok. cc)
        | inl e ↦ simp (e1, e2, e3, e) (λ ok. (refl, refl))
      ]
    ]
  ]
]

written-elsewhere :
    (n : ℕ) (page : Page) (s : Store) (j : ℕ)
    → j ≢ page.id
    → page_in (written n page s) j ≡ page_in s j
unfolding written
written-elsewhere n page s j ne =
    let m = if ltb n page_size then n else page_size in
    let short : m ≤ page_size = ground arith in
    bytes_from-elsewhere page.id j m page.bytes s.bytes ne short

stored_page-here :
    (page : Page) (s : Store) → Whole page.bytes → page_in (stored_page page s) page.id ≡ page.bytes
unfolding stored_page written
stored_page-here page s whole =
    bytes_from-written_at (page_offset page.id) page.bytes s.bytes ∙ clip-Whole page.bytes whole

write_cases :
    (io : Stream) (page : Page) (s : Store)
    → (Whole page.bytes
        → is_ok (write_page io page s).0 ≡ true
        → page_in (write_page io page s).1 page.id ≡ page.bytes)
      × ((j : ℕ) → j ≢ page.id → page_in (write_page io page s).1 j ≡ page_in s j)
unfolding write_page stored_page
write_cases io page s = elim (Bool-cases (page.id == invalid_id)) [
  | inl e ↦ rw e ((λ whole ok. cc), λ j ne. refl)
  | inr e0 ↦ elim (Bool-cases s.open_now) [
    | inr e ↦ simp (e0, e) ((λ whole ok. cc), λ j ne. refl)
    | inl e1 ↦ elim (Bool-cases (is_ok (num_pages io s).0)) [
      | inr e ↦ simp (e0, e1, e) ((λ whole ok. cc), λ j ne. refl)
      | inl e2 ↦ elim (Bool-cases (leb (num_pages io s).1 page.id)) [
        | inl e ↦ simp (e0, e1, e2, e) ((λ whole ok. cc), λ j ne. refl)
        | inr e3 ↦ elim (Option-cases io.fails_after) [
          | inr (n, e) ↦
              simp (e0, e1, e2, e3, e) ((λ whole ok. cc), λ j ne. written-elsewhere n page s j ne)
          | inl e ↦
              simp (e0, e1, e2, e3, e)
                (
                  (λ whole ok. stored_page-here page s whole),
                  λ j ne. written-elsewhere page_size page s j ne,
                )
        ]
      ]
    ]
  ]
]

-- The page storage and the log keep what the pool relies on, whatever their streams do: a read
-- changes nothing, a page that is written with the code kOk stands at its place in the file, and no
-- write, cut short or not, and no log record touches the place of another page.
pub engine_disk-Honest : Honest engine_disk
engine_disk-Honest = record {
  content = λ m. page_in m.store;
  whole = λ m. page_in-Whole m.store;
  read_only = λ id m j. refl;
  read_ok = λ id m. read_ok (m.io m.turn) id m.store;
  write_ok = λ page m. (write_cases (m.io m.turn) page m.store).0;
  write_other = λ page m. (write_cases (m.io m.turn) page m.store).1;
  log_only = λ page m j. refl;
}
