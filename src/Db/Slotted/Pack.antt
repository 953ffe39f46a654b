-- ===== src/Db/Slotted/Pack.antt =====
-- The second loop of `Compact`, after which the scratch array has the live records, packed
-- against the end of the page, and the directory has their new places.
use nexus_db.Prelude.{
  ℕ, zero, suc, ◌+◌, ◌-◌, ◌*◌, ◌≤◌, ◌<◌, ◌≡◌, refl, ap, ◌∙◌, subst, inl, inr, ◌==◌, if◌then◌else◌,
  Bool-cases, arith,
}
use nexus_db.Db.Page.{Bytes, page_size, read_u16, write_u16, copy, bytes_at}
use nexus_db.Db.Page.Access.{
  read_u16-write_u16, bytes_at-write_u16, bytes_at-copy, bytes_at-copy_self, length-bytes_at,
}
use nexus_db.Db.Slotted.{
  slot_count, free_start, entry, slot_offset, slot_length, has_magic, Packing, pack_slot, pack,
}
use nexus_db.Db.Slotted.Edit.{has_magic-write_u16}
use nexus_db.Db.Slotted.Layout.{Layout, Inside}

-- The bytes of the records in `n` slots from slot `i`.
unfoldable pub sum_live : Bytes → ℕ → ℕ → ℕ
sum_live d zero i = 0
sum_live d (suc n) i = slot_length d i + sum_live d n (i + 1)

-- The slots below `i` are packed.
pub record Packed (d : Bytes) (i : ℕ) (p : Packing) : Type 0 where
  pub magic : has_magic p.page ≡ has_magic d
  pub version : read_u16 p.page 4 ≡ read_u16 d 4
  pub counted : slot_count p.page ≡ slot_count d
  pub start : free_start p.page ≡ free_start d
  pub sizes : (k : ℕ) → k < slot_count d → slot_length p.page k ≡ slot_length d k
  pub later : (k : ℕ) → i ≤ k → k < slot_count d → slot_offset p.page k ≡ slot_offset d k
  pub bytes : (j n : ℕ) → entry (slot_count d) ≤ j → bytes_at p.page j n ≡ bytes_at d j n
  pub room : p.dest_end ≤ page_size
  pub above : (k : ℕ) → k < i → 0 < slot_length d k → p.dest_end ≤ slot_offset p.page k
  pub below :
      (k : ℕ) → k < i → 0 < slot_length d k → slot_offset p.page k + slot_length d k ≤ page_size
  pub staged :
      (k : ℕ)
      → k < i
      → 0 < slot_length d k
      → bytes_at p.scratch (slot_offset p.page k) (slot_length d k)
        ≡ bytes_at d (slot_offset d k) (slot_length d k)
  pub stacked :
      (k m : ℕ)
      → k < m
      → m < i
      → 0 < slot_length d k
      → 0 < slot_length d m
      → slot_offset p.page m + slot_length d m ≤ slot_offset p.page k

below_next : (d : Bytes) (i k : ℕ) → slot_length d i ≡ 0 → k < i + 1 → 0 < slot_length d k → k < i
below_next d i k z lt pos = elim (Bool-cases (k == i)) [
  | inl e ↦ let same : k ≡ i = ground arith in let z' = ap (slot_length d) same in omega arith
  | inr e ↦ ground arith
]

skip-Packed :
    (d : Bytes) (i : ℕ) (p : Packing) → Packed d i p → slot_length d i ≡ 0 → Packed d (i + 1) p
skip-Packed d i p q z = record {
  magic = q.magic;
  version = q.version;
  counted = q.counted;
  start = q.start;
  sizes = q.sizes;
  later = λ k le lt. q.later k (omega arith) lt;
  bytes = q.bytes;
  room = q.room;
  above = λ k lt pos. q.above k (below_next d i k z lt pos) pos;
  below = λ k lt pos. q.below k (below_next d i k z lt pos) pos;
  staged = λ k lt pos. q.staged k (below_next d i k z lt pos) pos;
  stacked = λ k m km lt pos_k pos_m. q.stacked k m km (below_next d i m z lt pos_m) pos_k pos_m;
}

-- What the loop leaves after a live slot.
abbrev stage : Bytes → ℕ → Packing → Packing
stage d i p =
    let dest = p.dest_end - slot_length d i in
    record {
      scratch = copy p.scratch dest (bytes_at d (slot_offset d i) (slot_length d i));
      page = write_u16 p.page (entry i) dest;
      dest_end = dest;
    }

module _ (d : Bytes) (i : ℕ) (p : Packing) (l : Layout d) (q : Packed d i p) (lt : i < slot_count d)
    (live : 0 < slot_length d i) (fits : slot_length d i ≤ p.dest_end) where
  read_u16-stage :
      (j k : ℕ)
      → j ≡ 2 * k
      → read_u16 (stage d i p).page j
        ≡ (if entry i == j then p.dest_end - slot_length d i else read_u16 p.page j)
  read_u16-stage j k even =
      let room = q.room in
      read_u16-write_u16 p.page (entry i) (p.dest_end - slot_length d i) j (omega arith)
        (ground arith)

  offset-stage :
      (k : ℕ)
      → slot_offset (stage d i p).page k
        ≡ (if i == k then p.dest_end - slot_length d i else slot_offset p.page k)
  offset-stage k = let e = read_u16-stage (entry k) (8 + k * 2) (omega arith) in ground arith

  bytes_at-stage :
      (j n : ℕ) → p.dest_end ≤ j → bytes_at (stage d i p).scratch j n ≡ bytes_at p.scratch j n
  bytes_at-stage j n low =
      let size = length-bytes_at d (slot_offset d i) (slot_length d i) in
      bytes_at-copy p.scratch (p.dest_end - slot_length d i)
        (bytes_at d (slot_offset d i) (slot_length d i)) j n (omega arith)

  staged_here :
      bytes_at (stage d i p).scratch (p.dest_end - slot_length d i) (slot_length d i)
      ≡ bytes_at d (slot_offset d i) (slot_length d i)
  staged_here =
      let dest = p.dest_end - slot_length d i in
      let xs = bytes_at d (slot_offset d i) (slot_length d i) in
      subst (λ n. bytes_at (copy p.scratch dest xs) dest n ≡ xs)
        (length-bytes_at d (slot_offset d i) (slot_length d i))
        (bytes_at-copy_self p.scratch dest xs)

  -- The staged record lies above the new end, and below the old one.
  bounds-stage :
      (k : ℕ)
      → k < i + 1
      → 0 < slot_length d k
      → ((stage d i p).dest_end ≤ slot_offset (stage d i p).page k)
        × (slot_offset (stage d i p).page k + slot_length d k ≤ page_size)
  bounds-stage k below pos =
      let room = q.room in
      let e = offset-stage k in
      elim (Bool-cases (i == k)) [
        | inl same ↦
            let eq : i ≡ k = ground arith in
            let s = ap (slot_length d) eq in (ground arith, ground arith)
        | inr other ↦
            let above = q.above k (ground arith) pos in
            let inside = q.below k (ground arith) pos in (ground arith, ground arith)
      ]

  staged-stage :
      (k : ℕ)
      → k < i + 1
      → 0 < slot_length d k
      → bytes_at (stage d i p).scratch (slot_offset (stage d i p).page k) (slot_length d k)
        ≡ bytes_at d (slot_offset d k) (slot_length d k)
  staged-stage k below pos = elim (Bool-cases (i == k)) [
    | inl same ↦
        let eq : i ≡ k = ground arith in
        let own : slot_offset (stage d i p).page i ≡ p.dest_end - slot_length d i =
          offset-stage i ∙ ground arith in
        subst
          (λ m.
            bytes_at (stage d i p).scratch (slot_offset (stage d i p).page m) (slot_length d m)
            ≡ bytes_at d (slot_offset d m) (slot_length d m))
          eq (rw own staged_here)
    | inr other ↦
        let lt_k : k < i = ground arith in
        let above = q.above k lt_k pos in
        let e : slot_offset (stage d i p).page k ≡ slot_offset p.page k =
          offset-stage k ∙ ground arith in
        rw e (bytes_at-stage (slot_offset p.page k) (slot_length d k) above ∙ q.staged k lt_k pos)
  ]

  stacked-stage :
      (k m : ℕ)
      → k < m
      → m < i + 1
      → 0 < slot_length d k
      → 0 < slot_length d m
      → slot_offset (stage d i p).page m + slot_length d m ≤ slot_offset (stage d i p).page k
  stacked-stage k m km below pos_k pos_m =
      let e_k = offset-stage k in
      let e_m = offset-stage m in
      let above = q.above k (omega arith) pos_k in
      elim (Bool-cases (i == m)) [
        | inl same ↦ let eq : i ≡ m = ground arith in let s = ap (slot_length d) eq in ground arith
        | inr other ↦ let was = q.stacked k m km (ground arith) pos_k pos_m in ground arith
      ]

  stage-Packed : Packed d (i + 1) (stage d i p)
  unfolding Inside
  stage-Packed =
      let directory = l.directory in
      let room = q.room in
      record {
        magic =
            has_magic-write_u16 p.page (entry i) (p.dest_end - slot_length d i) (omega arith)
            ∙ q.magic;
        version = let e = read_u16-stage 4 2 (omega arith) in let was = q.version in ground arith;
        counted = let e = read_u16-stage 6 3 (omega arith) in let was = q.counted in ground arith;
        start = let e = read_u16-stage 8 4 (omega arith) in let was = q.start in ground arith;
        sizes = λ k below.
            let e = read_u16-stage (entry k + 2) (9 + k * 2) (omega arith) in
            let was = q.sizes k below in ground arith;
        later = λ k le below.
            let e = offset-stage k in let was = q.later k (omega arith) below in ground arith;
        bytes = λ j n low.
            bytes_at-write_u16 p.page (entry i) (p.dest_end - slot_length d i) j n (omega arith)
            ∙ q.bytes j n low;
        room = omega arith;
        above = λ k below pos. (bounds-stage k below pos).0;
        below = λ k below pos. (bounds-stage k below pos).1;
        staged = staged-stage;
        stacked = stacked-stage;
      }

pack_slot-Packed :
    (d : Bytes) (i : ℕ) (p : Packing)
    → Layout d
    → Packed d i p
    → i < slot_count d
    → slot_length d i ≤ p.dest_end
    → Packed d (i + 1) (pack_slot i p) × ((pack_slot i p).dest_end ≡ p.dest_end - slot_length d i)
unfolding pack_slot Inside
pack_slot-Packed d i p l q lt fits =
    let size = q.sizes i lt in
    let at = q.later i (omega arith) lt in
    let there = l.live i lt in
    elim (Bool-cases (slot_length d i == 0)) [
      | inl z ↦
          let none : slot_length d i ≡ 0 = ground arith in
          rw (size, z) (skip-Packed d i p q none, ground arith)
      | inr z ↦
          let live : 0 < slot_length d i = ground arith in
          let same = q.bytes (slot_offset d i) (slot_length d i) (
            let ordered = l.ordered in
            let dir = l.directory in let here = there live in omega arith) in
          rw (size, z, at, same) (stage-Packed d i p l q lt live fits, refl)
    ]

-- The slots that are left fit above the directory.
pub pack-Packed :
    (d : Bytes) (n i : ℕ) (p : Packing)
    → Layout d
    → Packed d i p
    → i + n ≡ slot_count d
    → free_start d + sum_live d n i ≤ p.dest_end
    → Packed d (slot_count d) (pack n i p) × ((pack n i p).dest_end ≡ p.dest_end - sum_live d n i)
unfolding pack sum_live
pack-Packed d zero i p l q done fits = (subst (λ k. Packed d k p) (omega arith) q, omega arith)
pack-Packed d (suc n) i p l q more fits =
    let (q', e) = pack_slot-Packed d i p l q (omega arith) (omega arith) in
    let (r, f) = pack-Packed d n (i + 1) (pack_slot i p) l q' (omega arith) (omega arith) in
    (r, omega arith)
