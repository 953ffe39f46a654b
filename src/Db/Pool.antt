-- ===== src/Db/Pool.antt =====
-- src/db/buffer/buffer_pool.cpp: a pool of page frames over a page storage. A handle is the index
-- of its frame; the functions take the pool and the state of the storage, and return them.
pub mod Frames
pub mod Kept
pub mod Flush
pub mod Stamps
pub mod Victim
pub mod Install
pub mod Hit
pub mod Fetch
pub mod Victims
pub mod Release
pub mod Shrink
pub mod Resize
pub mod Client
pub mod Handle
use nexus_db.Prelude.{
  ℕ, zero, suc, ◌+◌, ◌-◌, ◌%◌, ◌^◌, Bool, true, false, not, ◌&&◌, ◌||◌, Option, none, some, List,
  [], ◌∷◌, ◌++◌, ltb, leb, ◌==◌, if◌then◌else◌, length, get_or, set, replicate, find_index, take,
}
use nexus_db.Prelude.Search.{count_if}
use nexus_db.Db.Status.{DbError, is_ok}
use nexus_db.Db.Page.{Page, new_page, invalid_id}
use nexus_db.Db.Disk.{Disk}

pub record Frame : Type 0 where
  pub page : Page
  pub pin_count : ℕ
  pub last_used : ℕ
  pub in_use : Bool

-- `Frame()`
abbrev pub empty_frame : Frame
empty_frame = record { page = new_page invalid_id; pin_count = 0; last_used = 0; in_use = false }

pub record Pool : Type 0 where
  pub capacity : ℕ
  pub frames : List Frame
  pub clock : ℕ

abbrev pub frame_at : List Frame → ℕ → Frame
frame_at frames i = get_or frames i empty_frame

-- `numeric_limits<uint64_t>::max()`
abbrev pub stamp_max : ℕ
stamp_max = 2 ^ 64 - 1

abbrev pub is_used : Frame → Bool
is_used f = f.in_use

abbrev pub holds : ℕ → Frame → Bool
holds id f = f.in_use && f.page.id == id

abbrev pub is_free : Frame → Bool
is_free f = not f.in_use

-- In use and unpinned.
abbrev pub can_go : Frame → Bool
can_go f = f.in_use && f.pin_count == 0

-- `BufferPool::FindFrame`
abbrev pub find_frame : ℕ → List Frame → Option ℕ
find_frame id frames = find_index (holds id) frames

-- `BufferPool::size`
abbrev pub size : List Frame → ℕ
size frames = count_if is_used frames

-- `BufferPool::pinned_frames`
unfoldable pub pinned_frames : List Frame → ℕ
pinned_frames frames = count_if (λ f. f.in_use && ltb 0 f.pin_count) frames

-- `BufferPool::PinCount`
unfoldable pub pin_count_of : ℕ → List Frame → ℕ
pin_count_of id frames = elim (find_frame id frames) [
  | none ↦ 0
  | some i ↦ (frame_at frames i).pin_count
]

-- `BufferPool::Create` with a storage.
unfoldable pub create : ℕ → DbError × Option Pool
create capacity = if capacity == 0 then (DbError.invalid_argument, none) else (
  DbError.ok,
  some (record { capacity = capacity; frames = replicate capacity empty_frame; clock = 0 }),
)

-- The indices from `i` of the frames that pass a test.
unfoldable pub indices : (Frame → Bool) → List Frame → ℕ → List ℕ
indices test [] i = []
indices test (f ∷ fs) i = let rest = indices test fs (i + 1) in if test f then i ∷ rest else rest

-- `std::sort` by `last_used`, where the index decides a tie; the indices come in ascending order.
unfoldable pub insert_by : List Frame → ℕ → List ℕ → List ℕ
insert_by frames i [] = i ∷ []
insert_by frames i (j ∷ js) =
    let rest = insert_by frames i js in
    if leb (frame_at frames i).last_used (frame_at frames j).last_used then i ∷ j ∷ js else j ∷ rest

unfoldable pub sort_by_use : List Frame → List ℕ → List ℕ
sort_by_use frames [] = []
sort_by_use frames (i ∷ is) = insert_by frames i (sort_by_use frames is)

-- `frames_[frame].last_used = ++stamp` for the frames of `order`.
unfoldable pub restamp : List ℕ → ℕ → List Frame → List Frame
restamp [] stamp frames = frames
restamp (i ∷ is) stamp frames =
    restamp is (stamp + 1) (set frames i (record (frame_at frames i) { last_used = stamp + 1 }))

-- `BufferPool::RenumberClock`
unfoldable pub renumber : Pool → Pool
renumber p =
    let order = sort_by_use p.frames (indices is_used p.frames 0) in
    record p { frames = restamp order 0 p.frames; clock = length order }

-- `BufferPool::NextTimestamp`
unfoldable pub next_timestamp : Pool → ℕ × Pool
next_timestamp p =
    let p' = if p.clock == stamp_max then renumber p else p in
    let stamp = (p'.clock + 1) % 2 ^ 64 in (stamp, record p' { clock = stamp })

-- `f.last_used = NextTimestamp()`
unfoldable pub touch : ℕ → Pool → Pool
touch i p =
    let (stamp, p') = next_timestamp p in
    record p' { frames = set p'.frames i (record (frame_at p'.frames i) { last_used = stamp }) }

-- The loop of `AcquireFrame` over the frames from index `i`, with `victim` and `oldest` so far.
unfoldable pub find_victim : List Frame → ℕ → Option ℕ → ℕ → Option ℕ
find_victim [] i victim oldest = victim
find_victim (f ∷ fs) i victim oldest =
    let better = find_victim fs (i + 1) (some i) f.last_used in
    let same = find_victim fs (i + 1) victim oldest in
    if can_go f && ltb f.last_used oldest then better else same

-- `TrimFreeFrames`: a frame goes when it lies at or above the capacity, is free, and all behind it
-- go.
unfoldable pub trim : ℕ → List Frame → List Frame
trim capacity [] = []
trim capacity (f ∷ fs) =
    let rest = trim (capacity - 1) fs in
    if capacity == 0 && (not f.in_use && length rest == 0) then [] else f ∷ rest

-- `frames_[frame] = Frame()` for each victim.
unfoldable pub release : List ℕ → List Frame → List Frame
release [] frames = frames
release (i ∷ is) frames = release is (set frames i empty_frame)

-- `BufferPool::UnpinFrame`, which the handle's `Unpin`, destructor and assignments call.
unfoldable pub unpin_frame : ℕ → Pool → Pool
unpin_frame i p =
    let f = frame_at p.frames i in
    if leb (length p.frames) i
    then p
    else if ltb 0 f.pin_count
    then record p { frames = set p.frames i (record f { pin_count = f.pin_count - 1 }) }
    else p

-- What a client does through `Handle::page()` and `Handle::MarkDirty()`.
unfoldable pub modify : ℕ → (ℕ → ℕ) → Pool → Pool
modify i bytes p =
    let f = frame_at p.frames i in
    record p {
      frames = set p.frames i (record f { page = record f.page { bytes = bytes; dirty = true } });
    }

-- `pin_count++`
unfoldable pub pin : ℕ → Pool → Pool
pin i p =
    let f = frame_at p.frames i in
    record p { frames = set p.frames i (record f { pin_count = f.pin_count + 1 }) }

-- The writes of `Fetch` to the frame that it loads a page into.
unfoldable pub install : Page → ℕ → Pool → Pool
install page i p =
    let loaded = record (frame_at p.frames i) { page = page; pin_count = 1 } in
    let (stamp, p') = next_timestamp (record p { frames = set p.frames i loaded }) in
    let ready = record (frame_at p'.frames i) { last_used = stamp; in_use = true } in
    record p' { frames = set p'.frames i ready }

module _ (disk : Disk) where
  -- `BufferPool::FlushFrame`
  unfoldable pub flush_frame : ℕ → Pool → disk.World → DbError × Pool × disk.World
  flush_frame i p w =
      let f = frame_at p.frames i in
      let (logged, w1) = disk.before_page_write f.page w in
      let (written, w2) = disk.write_page f.page w1 in
      let clean = record f { page = record f.page { dirty = false } } in
      if not f.in_use || not f.page.dirty
      then (DbError.ok, p, w)
      else if not (is_ok logged)
      then (logged, p, w1)
      else if not (is_ok written)
      then (written, p, w2)
      else (DbError.ok, record p { frames = set p.frames i clean }, w2)

  -- `AcquireFrame` at capacity.
  unfoldable pub evict : Option ℕ → Pool → disk.World → DbError × Option ℕ × Pool × disk.World
  evict none p w = (DbError.buffer_full, none, p, w)
  evict (some victim) p w =
      let (code, p', w') = flush_frame victim p w in
      (code, (if is_ok code then some victim else none), p', w')

  -- `BufferPool::AcquireFrame`. The slot is `none` for kNoFrame.
  unfoldable pub acquire_frame : Pool → disk.World → DbError × Option ℕ × Pool × disk.World
  acquire_frame p w =
      let evicted = evict (find_victim p.frames 0 none stamp_max) p w in
      if ltb (size p.frames) p.capacity
      then elim (find_index is_free p.frames) [
        | none ↦ evicted
        | some i ↦ (DbError.ok, some i, p, w)
      ]
      else evicted

  -- The end of `Fetch`, with what `AcquireFrame` answered.
  unfoldable pub load_into :
      Page → DbError → Option ℕ → Pool → disk.World → DbError × Option ℕ × Pool × disk.World
  load_into page code none p w = (code, none, p, w)
  load_into page code (some i) p w =
      if not (is_ok code) then (code, none, p, w) else (DbError.ok, some i, install page i p, w)

  -- `Fetch` of a page that is not resident, once it is read.
  unfoldable pub load : Page → Pool → disk.World → DbError × Option ℕ × Pool × disk.World
  load page p w = let (code, slot, p', w') = acquire_frame p w in load_into page code slot p' w'

  -- `BufferPool::Fetch` into a handle that is not NULL; the handle is `none` where it is empty.
  unfoldable pub fetch : ℕ → Pool → disk.World → DbError × Option ℕ × Pool × disk.World
  fetch id p w =
      let (code, page, w') = disk.read_page id w in
      if id == invalid_id
      then (DbError.invalid_argument, none, p, w)
      else elim (find_frame id p.frames) [
        | some i ↦ (DbError.ok, some i, touch i (pin i p), w)
        | none ↦ if not (is_ok code) then (code, none, p, w') else load page p w'
      ]

  -- `BufferPool::FlushPage`
  unfoldable pub flush_page : ℕ → Pool → disk.World → DbError × Pool × disk.World
  flush_page id p w = elim (find_frame id p.frames) [
    | none ↦ (DbError.not_found, p, w)
    | some i ↦ flush_frame i p w
  ]

  -- The loop of `FlushAll`, with the rounds that are left; an unused or clean frame flushes as kOk.
  unfoldable pub flush_from : ℕ → ℕ → DbError → Pool → disk.World → DbError × Pool × disk.World
  flush_from zero i first_error p w = (first_error, p, w)
  flush_from (suc rounds) i first_error p w =
      let (code, p', w') = flush_frame i p w in
      flush_from rounds (i + 1) (if is_ok first_error then code else first_error) p' w'

  -- `BufferPool::FlushAll`
  unfoldable pub flush_all : Pool → disk.World → DbError × Pool × disk.World
  flush_all p w = flush_from (length p.frames) 0 DbError.ok p w

  -- `~BufferPool`, whatever the code of `FlushAll`.
  unfoldable pub destroy_pool : Pool → disk.World → disk.World
  destroy_pool p w = (flush_all p w).2

  -- The loop of `Resize` that writes the victims back, until one fails.
  unfoldable pub flush_victims : List ℕ → Pool → disk.World → DbError × Pool × disk.World
  flush_victims [] p w = (DbError.ok, p, w)
  flush_victims (i ∷ is) p w =
      let (code, p', w') = flush_frame i p w in
      let rest = flush_victims is p' w' in if not (is_ok code) then (code, p', w') else rest

  -- `Resize` to a smaller capacity, once the victims are chosen.
  unfoldable pub shrink : ℕ → List ℕ → Pool → disk.World → DbError × Pool × disk.World
  shrink capacity victims p w =
      let (code, p', w') = flush_victims victims p w in
      if not (is_ok code) then (code, p', w') else (
        DbError.ok,
        record p' { capacity = capacity; frames = trim capacity (release victims p'.frames) },
        w',
      )

  -- `BufferPool::Resize`. `allocates n` says whether memory for `n` frames or indices is there.
  unfoldable pub resize : (ℕ → Bool) → ℕ → Pool → disk.World → DbError × Pool × disk.World
  resize allocates n p w =
      let needed = size p.frames - n in
      let candidates = indices can_go p.frames 0 in
      let added = replicate (n - length p.frames) empty_frame in
      if n == 0
      then (DbError.invalid_argument, p, w)
      else if n == p.capacity
      then (DbError.ok, p, w)
      else if ltb p.capacity n && leb n (length p.frames)
      then (DbError.ok, record p { capacity = n }, w)
      else if ltb p.capacity n && not (allocates n)
      then (DbError.out_of_memory, p, w)
      else if ltb p.capacity n
      then (DbError.ok, record p { capacity = n; frames = p.frames ++ added }, w)
      else if needed == 0
      then shrink n [] p w
      else if not (allocates needed)
      then (DbError.out_of_memory, p, w)
      else if ltb (length candidates) needed
      then (DbError.buffer_full, p, w)
      else shrink n (take needed (sort_by_use p.frames candidates)) p w
