-- ===== src/Db/Slotted/Compact.antt =====
-- `Compact`: every slot keeps its record, the records are packed against the end of the page, and
-- what is free above the directory is one zeroed region.
use nexus_db.Prelude.{
  ℕ, zero, suc, ◌+◌, ◌-◌, ◌*◌, ◌≤◌, ◌<◌, ◌≡◌, refl, sym, ap, ◌∙◌, inl, inr, some, ltb, leb, ◌==◌,
  if◌then◌else◌, Bool-cases, arith,
}
use nexus_db.Db.Page.{Bytes, page_size, read_u16, write_u16, copy, clear, bytes_at}
use nexus_db.Db.Page.Access.{
  read_u16-write_u16, read_u16-copy, read_u16-clear, bytes_at-write_u16, bytes_at-copy_from,
  bytes_at-clear, length-bytes_at,
}
use nexus_db.Db.Slotted.{
  slot_count, free_start, free_end, entry, slot_offset, slot_length, has_magic, total_live, Packing,
  pack, repack,
}
use nexus_db.Db.Slotted.Edit.{has_magic-write_u16, has_magic-copy, has_magic-clear}
use nexus_db.Db.Slotted.Layout.{
  Layout, Inside, Disjoint, WellFormed, record_at, record_at-none, record_at-some,
}
use nexus_db.Db.Slotted.Pack.{Packed, sum_live, pack-Packed}

total_live-sum :
    (d : Bytes) (n i total sum : ℕ)
    → total_live d n i total ≡ some sum
    → sum ≡ total + sum_live d n i
unfolding total_live sum_live
total_live-sum d zero i total sum e = ground arith
total_live-sum d (suc n) i total sum e =
    let skipped : total_live d n (i + 1) total ≡ some sum → sum ≡ total + sum_live d n (i + 1) =
      total_live-sum d n (i + 1) total sum in
    let added = total_live-sum d n (i + 1) (total + slot_length d i) sum in ground arith

-- The page before the loop, with the free region still to come.
start : Bytes → Bytes → Packing
start scratch d = record { page = d; scratch = scratch; dest_end = page_size }

start-Packed : (scratch d : Bytes) → Packed d 0 (start scratch d)
unfolding start
start-Packed scratch d = record {
  magic = refl;
  version = refl;
  counted = refl;
  start = refl;
  sizes = λ k lt. refl;
  later = λ k le lt. refl;
  bytes = λ j n low. refl;
  room = omega arith;
  above = λ k lt pos. omega arith;
  below = λ k lt pos. omega arith;
  staged = λ k lt pos. ground arith;
  stacked = λ k m km lt pos_k pos_m. omega arith;
}

-- The writes after the loop, which left `p`.
finish : ℕ → Packing → Bytes
finish low p =
    let region = page_size - p.dest_end in
    let moved =
      if ltb 0 region
      then copy p.page p.dest_end (bytes_at p.scratch p.dest_end region)
      else p.page in
    let ended = write_u16 moved 10 p.dest_end in
    if ltb low p.dest_end then clear ended low (p.dest_end - low) else ended

repack-finish :
    (scratch d : Bytes)
    → repack scratch d ≡ finish (free_start d) (pack (slot_count d) 0 (start scratch d))
unfolding repack finish start
repack-finish scratch d = refl

-- The packed records go to the page; all else on it but `free_end` stays.
module _ (low : ℕ) (p : Packing) (room : p.dest_end ≤ page_size) (above : low ≤ p.dest_end)
    (head : 16 ≤ low) where
  read_u16-finish :
      (j k : ℕ)
      → j ≡ 2 * k
      → j + 2 ≤ low
      → read_u16 (finish low p) j ≡ (if j == 10 then p.dest_end else read_u16 p.page j)
  unfolding finish
  read_u16-finish j k even small =
      let size = length-bytes_at p.scratch p.dest_end (page_size - p.dest_end) in
      let xs = bytes_at p.scratch p.dest_end (page_size - p.dest_end) in
      let c = read_u16-copy p.page p.dest_end xs j (omega arith) in
      let moved = copy p.page p.dest_end xs in
      let w1 = read_u16-write_u16 moved 10 p.dest_end j (omega arith) (ground arith) in
      let w2 = read_u16-write_u16 p.page 10 p.dest_end j (omega arith) (ground arith) in
      let z1 =
        read_u16-clear (write_u16 moved 10 p.dest_end) low (p.dest_end - low) j (omega arith) in
      let z2 =
        read_u16-clear (write_u16 p.page 10 p.dest_end) low (p.dest_end - low) j (omega arith) in
      ground arith

  bytes_at-finish :
      (j n : ℕ)
      → p.dest_end ≤ j
      → j + n ≤ page_size
      → 0 < n
      → bytes_at (finish low p) j n ≡ bytes_at p.scratch j n
  unfolding finish
  bytes_at-finish j n lo hi pos =
      let xs = bytes_at p.scratch p.dest_end (page_size - p.dest_end) in
      let moved = copy p.page p.dest_end xs in
      let c =
        bytes_at-copy_from p.page p.scratch p.dest_end (page_size - p.dest_end) j n lo
          (omega arith) in
      let w = bytes_at-write_u16 moved 10 p.dest_end j n (omega arith) in
      let z =
        bytes_at-clear (write_u16 moved 10 p.dest_end) low (p.dest_end - low) j n (omega arith) in
      ground arith

  has_magic-finish : has_magic (finish low p) ≡ has_magic p.page
  unfolding finish
  has_magic-finish =
      let xs = bytes_at p.scratch p.dest_end (page_size - p.dest_end) in
      let c = has_magic-copy p.page p.dest_end xs (omega arith) in
      let moved = copy p.page p.dest_end xs in
      let w1 = has_magic-write_u16 moved 10 p.dest_end (omega arith) in
      let w2 = has_magic-write_u16 p.page 10 p.dest_end (omega arith) in
      let z1 =
        has_magic-clear (write_u16 moved 10 p.dest_end) low (p.dest_end - low) (omega arith) in
      let z2 =
        has_magic-clear (write_u16 p.page 10 p.dest_end) low (p.dest_end - low) (omega arith) in
      ground arith

-- What `Compact` leaves of a page whose live records fit.
module _ (scratch d : Bytes) (l : Layout d)
    (fits : sum_live d (slot_count d) 0 ≤ page_size - free_start d) where
  low_page : free_start d ≤ page_size
  low_page = let ordered = l.ordered in let bounded = l.bounded in omega arith

  packed : Packing
  packed = pack (slot_count d) 0 (start scratch d)

  packed-Packed :
      Packed d (slot_count d) packed × (packed.dest_end ≡ page_size - sum_live d (slot_count d) 0)
  unfolding packed start
  packed-Packed =
      let small = low_page in
      pack-Packed d (slot_count d) 0 (start scratch d) l (start-Packed scratch d) (omega arith)
        (omega arith)

  field :
      (j k : ℕ)
      → j ≡ 2 * k
      → j + 2 ≤ free_start d
      → read_u16 (repack scratch d) j
        ≡ (if j == 10 then page_size - sum_live d (slot_count d) 0 else read_u16 packed.page j)
  unfolding packed
  field j k even small =
      let (q, e) = packed-Packed in
      let directory = l.directory in
      let top = low_page in
      let s =
        read_u16-finish (free_start d) packed q.room (omega arith) (omega arith) j k even small in
      let r = ap (λ b. read_u16 b j) (repack-finish scratch d) in ground arith

  pub free_end-repack : free_end (repack scratch d) ≡ page_size - sum_live d (slot_count d) 0
  free_end-repack =
      let directory = l.directory in let e = field 10 5 (omega arith) (omega arith) in ground arith

  pub free_start-repack : free_start (repack scratch d) ≡ free_start d
  free_start-repack =
      let directory = l.directory in
      let e = field 8 4 (omega arith) (omega arith) in
      let was = packed-Packed.0.start in ground arith

  pub slot_count-repack : slot_count (repack scratch d) ≡ slot_count d
  slot_count-repack =
      let directory = l.directory in
      let e = field 6 3 (omega arith) (omega arith) in
      let was = packed-Packed.0.counted in ground arith

  size : (k : ℕ) → k < slot_count d → slot_length (repack scratch d) k ≡ slot_length d k
  size k lt =
      let directory = l.directory in
      let e = field (entry k + 2) (9 + k * 2) (omega arith) (omega arith) in
      let was = packed-Packed.0.sizes k lt in ground arith

  offset : (k : ℕ) → k < slot_count d → slot_offset (repack scratch d) k ≡ slot_offset packed.page k
  offset k lt =
      let directory = l.directory in
      let e = field (entry k) (8 + k * 2) (omega arith) (omega arith) in ground arith

  repack-Layout : Layout (repack scratch d)
  unfolding packed Inside
  repack-Layout =
      let (q, e) = packed-Packed in
      let directory = l.directory in
      let top = low_page in
      let end = free_end-repack in
      let begin = free_start-repack in
      let count = slot_count-repack in
      record {
        magic =
            ap has_magic (repack-finish scratch d)
            ∙ has_magic-finish (free_start d) packed q.room (omega arith) (omega arith)
            ∙ q.magic
            ∙ l.magic;
        version =
            let v = field 4 2 (omega arith) (omega arith) in
            let was = q.version in let one = l.version in ground arith;
        directory = omega arith;
        ordered = omega arith;
        bounded = omega arith;
        live = λ i lt pos.
            let s = size i (omega arith) in
            let o = offset i (omega arith) in
            let above = q.above i (omega arith) (omega arith) in
            let below = q.below i (omega arith) (omega arith) in omega arith;
      }

  pub repack-WellFormed : WellFormed (repack scratch d)
  unfolding Disjoint
  repack-WellFormed = record {
    layout = repack-Layout;
    disjoint = λ i j lt below live_i live_j.
        let (q, e) = packed-Packed in
        let count = slot_count-repack in
        let s_i = size i (omega arith) in
        let s_j = size j (omega arith) in
        let o_i = offset i (omega arith) in
        let o_j = offset j (omega arith) in
        let stacked = q.stacked i j lt (omega arith) (omega arith) (omega arith) in omega arith;
  }

  pub record_at-repack : (i : ℕ) → record_at (repack scratch d) i ≡ record_at d i
  unfolding packed
  record_at-repack i =
      let (q, e) = packed-Packed in
      let directory = l.directory in
      let top = low_page in
      let count = slot_count-repack in
      elim (Bool-cases (leb (slot_count d) i)) [
        | inl out ↦
            record_at-none (repack scratch d) i (ground arith)
            ∙ sym (record_at-none d i (ground arith))
        | inr inside ↦
            let lt : i < slot_count d = ground arith in
            let s = size i lt in
            let o = offset i lt in
            elim (Bool-cases (slot_length d i == 0)) [
              | inl z ↦
                  record_at-none (repack scratch d) i (ground arith)
                  ∙ sym (record_at-none d i (ground arith))
              | inr z ↦
                  let live : 0 < slot_length d i = ground arith in
                  let above = q.above i lt live in
                  let below = q.below i lt live in
                  let moved =
                    ap (λ b. bytes_at b (slot_offset packed.page i) (slot_length d i))
                      (repack-finish scratch d)
                    ∙ bytes_at-finish (free_start d) packed q.room (omega arith) (omega arith)
                        (slot_offset packed.page i) (slot_length d i) above below live
                    ∙ q.staged i lt live in
                  record_at-some (repack scratch d) i (omega arith) (omega arith)
                  ∙ rw (s, o) (ap some moved)
                  ∙ sym (record_at-some d i lt live)
            ]
      ]
