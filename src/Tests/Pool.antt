-- ===== src/Tests/Pool.antt =====
-- A pool of one frame over a storage in memory, and the theorems on it.
use nexus_db.Prelude.{
  ℕ, ◌<◌, ltb, ◌≡◌, ◌≢◌, ◌⊎◌, refl, true, false, ◌==◌, if◌then◌else◌, replicate, arith,
}
use nexus_db.Rc.{Rc}
use nexus_db.Db.Status.{DbError, is_ok}
use nexus_db.Db.Page.{Bytes, Whole, clip}
use nexus_db.Db.Storage.Machine.{clip-Whole}
use nexus_db.Db.Disk.{Disk, Honest}
use nexus_db.Db.Pool.{
  load, load_into, install, next_timestamp, find_victim, evict, flush_frame, Pool, empty_frame,
  frame_at, fetch, acquire_frame, flush_all, resize, modify, unpin_frame,
}
use nexus_db.Db.Pool.Frames.{view}
use nexus_db.Db.Pool.Kept.{Kept}
use nexus_db.Db.Pool.Flush.{flush_all-Kept}
use nexus_db.Db.Pool.Victim.{Acquired, PinnedStay, acquire_frame-Acquired}
use nexus_db.Db.Pool.Hit.{WellFormed, Fetched}
use nexus_db.Db.Pool.Fetch.{fetch-Fetched}
use nexus_db.Db.Pool.Shrink.{Resized}
use nexus_db.Db.Pool.Resize.{resize-Resized}
use nexus_db.Db.Pool.Client.{create-WellFormed, modify-Shown, unpin_frame-Shown}
use nexus_db.Bridge.Adapter.{buffer_pool_request, request-Answered}

-- A storage that never fails, and has the pages of a function.
abbrev pub memory : Disk
memory = record {
  World = ℕ → Bytes;
  read_page = λ id w. (DbError.ok, record { id = id; dirty = false; bytes = clip (w id) }, w);
  write_page = λ page w. (DbError.ok, λ j. if j == page.id then page.bytes else w j);
  before_page_write = λ page w. (DbError.ok, w);
}

pub eq_self : (a : ℕ) → (a == a) ≡ true
eq_self a = ground arith

pub eq_other : (a b : ℕ) → a ≢ b → (a == b) ≡ false
eq_other a b ne = ground arith

pub clip_end : (d : Bytes) → Whole (clip d)
clip_end d j le = let outside : ltb j 4096 ≡ false = ground arith in rw outside refl

abbrev pub memory_honest : Honest memory
memory_honest = record {
  content = λ w id. clip (w id);
  whole = λ w id j le. clip_end (w id) j le;
  read_only = λ id w j. refl;
  read_ok = λ id w ok. (refl, refl);
  write_ok = λ page w whole ok. rw (eq_self page.id) (clip-Whole page.bytes whole);
  write_other = λ page w j ne. rw (eq_other j page.id ne) refl;
  log_only = λ page w j. refl;
}

abbrev pub stored : ℕ → Bytes
stored = λ id j. id

abbrev empty_pool : Pool
empty_pool = record { capacity = 1; frames = replicate 1 empty_frame; clock = 0 }

empty_pool-WellFormed : WellFormed (memory_honest.content stored) empty_pool
empty_pool-WellFormed = create-WellFormed (memory_honest.content stored) 1

abbrev pub nines : Bytes
nines = clip (λ j. 9)

-- Page 4 is fetched, its bytes are changed, and its handle is gone.
abbrev fetched_pool : Pool
fetched_pool = (fetch memory 4 empty_pool stored).2

abbrev changed_pool : Pool
changed_pool = modify 0 nines fetched_pool

abbrev idle_pool : Pool
idle_pool = unpin_frame 0 changed_pool

fetched_pool-WellFormed : WellFormed (memory_honest.content stored) fetched_pool
unfolding fetch load acquire_frame load_into
fetched_pool-WellFormed =
    (fetch-Fetched memory memory_honest 4 empty_pool stored empty_pool-WellFormed).well_formed

fetched_used : (frame_at fetched_pool.frames 0).in_use ≡ true
unfolding fetch load acquire_frame load_into install next_timestamp
fetched_used = refl

changed_pool-WellFormed : WellFormed (memory_honest.content stored) changed_pool
changed_pool-WellFormed =
    (modify-Shown (memory_honest.content stored) fetched_pool 0 nines fetched_pool-WellFormed
      fetched_used (clip_end (λ j. 9))).0

idle_pool-WellFormed : WellFormed (memory_honest.content stored) idle_pool
idle_pool-WellFormed =
    (unpin_frame-Shown (memory_honest.content stored) changed_pool 0 changed_pool-WellFormed).0

-- Page 5 takes the only frame, and page 4 is written back.
evicted_bytes :
    ((fetch memory 5 idle_pool stored).0 ≡ DbError.ok)
    × ((fetch memory 5 idle_pool stored).3 4 7 ≡ 9)
unfolding fetch load acquire_frame load_into install next_timestamp unpin_frame modify find_victim
    evict flush_frame
evicted_bytes = (refl, refl)

fetch-Fetched_example :
    let (code, slot, p', w') = fetch memory 5 idle_pool stored in
    Fetched (memory_honest.content stored) (memory_honest.content w') 5 idle_pool p' code slot
fetch-Fetched_example = fetch-Fetched memory memory_honest 5 idle_pool stored idle_pool-WellFormed

acquire_frame-Acquired_example :
    let (code, slot, p', w') = acquire_frame memory idle_pool stored in
    Kept (memory_honest.content stored) (memory_honest.content w') idle_pool p'
    × Acquired idle_pool p' code slot
    × PinnedStay memory memory_honest idle_pool p'
acquire_frame-Acquired_example =
    acquire_frame-Acquired memory memory_honest idle_pool stored idle_pool-WellFormed.coherent

flush_all-Kept_example :
    let (code, p', w') = flush_all memory idle_pool stored in
    Kept (memory_honest.content stored) (memory_honest.content w') idle_pool p'
    × (is_ok code ≡ true
        → (k : ℕ) → (frame_at p'.frames k).in_use ≡ true
        → ((frame_at p'.frames k).page.dirty ≡ false)
          × (memory_honest.content w' (frame_at p'.frames k).page.id
              ≡ (frame_at p'.frames k).page.bytes))
flush_all-Kept_example =
    flush_all-Kept memory memory_honest idle_pool stored idle_pool-WellFormed.coherent

resize-Resized_example :
    let (code, p', w') = resize memory (λ n. true) 3 idle_pool stored in
    Resized (memory_honest.content stored) (memory_honest.content w') 3 idle_pool p' code
resize-Resized_example =
    resize-Resized memory memory_honest (λ n. true) 3 idle_pool stored idle_pool-WellFormed

request-Answered_example :
    let (code, p', w') = buffer_pool_request memory (λ n. true) 2 idle_pool stored in
    WellFormed (memory_honest.content w') p'
    × ((id : ℕ)
        → view (memory_honest.content w') p'.frames id
          ≡ view (memory_honest.content stored) idle_pool.frames id)
    × (((code ≡ Rc.ok) × (p'.capacity ≡ 2))
        ⊎ ((code ≢ Rc.ok)
            × (p'.capacity ≡ idle_pool.capacity)
            × ((◌≡◌ {A = ℕ} 2 0)
                ⊎ ((idle_pool.capacity ≢ 2) × (idle_pool.capacity < 2 → true ≡ false)))))
request-Answered_example =
    request-Answered memory memory_honest (λ n. true) 2 idle_pool stored idle_pool-WellFormed
