-- ===== src/Db/Wal/Engine.antt =====
-- The log is applied to the page storage over a database file: when all its writes succeed.
use nexus_db.Prelude.{
  ℕ, ◌+◌, ◌/◌, ◌%◌, ◌^◌, ◌<◌, ◌≡◌, refl, Bool, true, false, none, List, [], ◌∷◌, ltb, leb, ◌==◌,
  All, arith,
}
use nexus_db.Db.Status.{DbError}
use nexus_db.Db.Page.{Page, page_size, invalid_id}
use nexus_db.Db.Storage.{Store, Stream, num_pages, page_exists, write_page, stored_page, written}
use nexus_db.Db.Storage.Machine.{Machine, engine_disk}
use nexus_db.Db.Wal.{Entry, image}
use nexus_db.Db.Wal.Header.{Writable}
use nexus_db.Db.Wal.Recovery.{Applies}

-- `PageExists`, as `Recover` asks it of the storage.
abbrev pub engine_page_exists : ℕ → Machine → Bool
engine_page_exists id m = page_exists (m.io m.turn) id m.store

abbrev pub page_count : Store → ℕ
page_count s = s.file_size / page_size % 2 ^ 32

-- An open storage of whole pages whose streams do not fail.
pub record Healthy (m : Machine) : Type 0 where
  pub stats : (t : ℕ) → (m.io t).stats ≡ true
  pub writes : (t : ℕ) → (m.io t).fails_after ≡ none
  pub is_open : m.store.open_now ≡ true
  pub whole_pages : m.store.file_size % page_size ≡ 0

num_pages-counted :
    (io : Stream) (s : Store)
    → io.stats ≡ true
    → s.open_now ≡ true
    → s.file_size % page_size ≡ 0
    → num_pages io s ≡ (DbError.ok, page_count s)
unfolding num_pages
num_pages-counted io s e1 e2 e3 =
    let whole : (s.file_size % page_size == 0) ≡ true = ground arith in simp (e1, e2, whole) refl

write_page-inside :
    (io : Stream) (page : Page) (s : Store)
    → num_pages io s ≡ (DbError.ok, page_count s)
    → io.fails_after ≡ none
    → s.open_now ≡ true
    → page.id < page_count s
    → page.id < invalid_id
    → write_page io page s ≡ (DbError.ok, stored_page page s)
unfolding write_page
write_page-inside io page s e1 e2 e3 lt valid =
    let named : (page.id == invalid_id) ≡ false = ground arith in
    let inside : leb (page_count s) page.id ≡ false = ground arith in
    simp (named, e1, e2, e3, inside) refl

page_exists-inside :
    (io : Stream) (id : ℕ) (s : Store)
    → num_pages io s ≡ (DbError.ok, page_count s)
    → id < page_count s
    → page_exists io id s ≡ true
unfolding page_exists
page_exists-inside io id s e lt =
    let inside : ltb id (page_count s) ≡ true = ground arith in simp (e, inside) refl

-- Records of pages that the file has are all applied, in an open storage whose streams do not fail.
pub Healthy-Applies :
    (es : List Entry) (m : Machine)
    → Healthy m
    → All Writable es
    → All (λ e. e.page_id < page_count m.store) es
    → Applies engine_disk engine_page_exists es m
unfolding stored_page written
Healthy-Applies [] m h wr inside = tt
Healthy-Applies (e ∷ es) m h wr inside =
    let io = m.io m.turn in
    let counted = num_pages-counted io m.store (h.stats m.turn) h.is_open h.whole_pages in
    let done =
      write_page-inside io (image e) m.store counted (h.writes m.turn) h.is_open inside.0
        wr.0.id_fits in
    let m' = record m { store = stored_page (image e) m.store; turn = m.turn + 1 } in
    let healthy : Healthy m' = record {
      stats = h.stats;
      writes = h.writes;
      is_open = h.is_open;
      whole_pages = h.whole_pages;
    } in
    let rest = Healthy-Applies es m' healthy wr.1 inside.1 in
    (page_exists-inside io e.page_id m.store counted inside.0, rw done refl, rw done rest)
