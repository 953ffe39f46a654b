-- ===== src/Db/Disk.antt =====
-- What the buffer pool asks of `PageStorage` and of its `PageLogSink`, with the state they work on.
use nexus_db.Prelude.{ℕ, ◌≡◌, ◌≢◌, true}
use nexus_db.Db.Status.{DbError, is_ok}
use nexus_db.Db.Page.{Bytes, Page, Whole}

pub record Disk : Type 1 where
  pub World : Type 0
  -- `ReadPage`: the code, and the page where it is kOk.
  pub read_page : ℕ → World → DbError × Page × World
  pub write_page : Page → World → DbError × World
  -- `BeforePageWrite` of the installed sink; without a sink it answers kOk and does nothing.
  pub before_page_write : Page → World → DbError × World

-- A disk that keeps pages of `kPageSize` bytes. A write that fails may have spoiled its own page,
-- no other.
pub record Honest (disk : Disk) : Type 0 where
  pub content : disk.World → ℕ → Bytes
  pub whole : (w : disk.World) (id : ℕ) → Whole (content w id)
  pub read_only :
      (id : ℕ) (w : disk.World) (j : ℕ) → content (disk.read_page id w).2 j ≡ content w j
  pub read_ok :
      (id : ℕ) (w : disk.World)
      → is_ok (disk.read_page id w).0 ≡ true
      → ((disk.read_page id w).1.id ≡ id) × ((disk.read_page id w).1.bytes ≡ content w id)
  pub write_ok :
      (page : Page) (w : disk.World)
      → Whole page.bytes
      → is_ok (disk.write_page page w).0 ≡ true
      → content (disk.write_page page w).1 page.id ≡ page.bytes
  pub write_other :
      (page : Page) (w : disk.World) (j : ℕ)
      → j ≢ page.id
      → content (disk.write_page page w).1 j ≡ content w j
  pub log_only :
      (page : Page) (w : disk.World) (j : ℕ)
      → content (disk.before_page_write page w).1 j ≡ content w j
