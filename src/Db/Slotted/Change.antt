-- ===== src/Db/Slotted/Change.antt =====
-- `Update`, in place and into the free region, and `Delete`: the writes change one slot.
use nexus_db.Prelude.{
  ℕ, ◌+◌, ◌*◌, ◌≤◌, ◌<◌, ◌≡◌, refl, ap, ◌∙◌, ◌⊎◌, inl, inr, none, some, List, ltb, ◌==◌,
  if◌then◌else◌, length, Bool-cases, arith,
}
use nexus_db.Db.Page.{Bytes, read_u16, write_u16, copy, bytes_at}
use nexus_db.Db.Page.Access.{
  read_u16-write_u16, read_u16-copy, bytes_at-write_u16, bytes_at-copy, bytes_at-copy_self,
}
use nexus_db.Db.Slotted.{slot_count, free_end, entry, slot_offset, slot_length, rewrite, bury}
use nexus_db.Db.Slotted.Edit.{
  Edit, Vacant, Stores, has_magic-write_u16, has_magic-copy, edit-Layout, edit-Disjoint,
  record_at-edit,
}
use nexus_db.Db.Slotted.Layout.{Disjoint, WellFormed, Inside}

module _ (d : Bytes) (slot : ℕ) (w : WellFormed d) (lt : slot < slot_count d) where
  known :
      ((slot_count d ≡ slot_count d) × (slot < slot_count d))
      ⊎ ((slot_count d ≡ slot_count d + 1) × (slot ≡ slot_count d))
  known = inl (refl, lt)

  -- `Delete`
  read_u16-bury :
      (j k : ℕ)
      → j ≡ 2 * k
      → read_u16 (bury slot d) j
        ≡ (if j == entry slot + 2 then 0 else if j == entry slot then 0 else read_u16 d j)
  unfolding bury
  read_u16-bury j k even =
      let e1 = read_u16-write_u16 d (entry slot) 0 j (omega arith) (ground arith) in
      let w1 = write_u16 d (entry slot) 0 in
      let e2 = read_u16-write_u16 w1 (entry slot + 2) 0 j (omega arith) (ground arith) in
      ground arith

  bury-Edit : Edit d (bury slot d) (slot_count d) slot 0 0
  unfolding bury Inside
  bury-Edit =
      let l = w.layout in
      let directory = l.directory in
      let ordered = l.ordered in
      let w1 = write_u16 d (entry slot) 0 in
      record {
        magic =
            has_magic-write_u16 w1 (entry slot + 2) 0 (omega arith)
            ∙ has_magic-write_u16 d (entry slot) 0 (omega arith);
        version = let e = read_u16-bury 4 2 (omega arith) in ground arith;
        counted = let e = read_u16-bury 6 3 (omega arith) in ground arith;
        offset = λ i lt. let e = read_u16-bury (entry i) (8 + i * 2) (omega arith) in ground arith;
        size =
            λ i lt. let e = read_u16-bury (entry i + 2) (9 + i * 2) (omega arith) in ground arith;
        kept = λ i lt_i other live.
            let there = l.live i lt_i live in
            bytes_at-write_u16 w1 (entry slot + 2) 0 (slot_offset d i) (slot_length d i)
              (omega arith)
            ∙ bytes_at-write_u16 d (entry slot) 0 (slot_offset d i) (slot_length d i) (omega arith);
      }

  pub bury-WellFormed : WellFormed (bury slot d)
  unfolding Vacant
  bury-WellFormed =
      let l = w.layout in
      let directory = l.directory in
      let ordered = l.ordered in
      let e = read_u16-bury 10 5 (omega arith) in
      let f = read_u16-bury 8 4 (omega arith) in
      record {
        layout =
            edit-Layout d (bury slot d) (slot_count d) slot 0 0 bury-Edit known l (ground arith)
              (ground arith) (ground arith) (λ pos. omega arith);
        disjoint =
            edit-Disjoint d (bury slot d) (slot_count d) slot 0 0 bury-Edit known w.disjoint
              (λ pos. omega arith);
      }

  pub slot_count-bury : slot_count (bury slot d) ≡ slot_count d
  slot_count-bury = bury-Edit.counted

  pub bury-Stores : Stores d (bury slot d) slot none
  unfolding Stores
  bury-Stores i = record_at-edit d (bury slot d) (slot_count d) slot 0 0 bury-Edit known i

  -- `Update` of a record that is at least as long as the new one.
  module _ (xs : List ℕ) (pos : 0 < length xs) (short : length xs ≤ slot_length d slot) where
    read_u16-rewrite :
        (j k : ℕ)
        → j ≡ 2 * k
        → j + 2 ≤ free_end d
        → read_u16 (rewrite slot xs d) j ≡ (if j == entry slot + 2 then length xs else read_u16 d j)
    unfolding rewrite Inside
    read_u16-rewrite j k even low =
        let l = w.layout in
        let there = l.live slot lt (omega arith) in
        let e0 = read_u16-copy d (slot_offset d slot) xs j (omega arith) in
        let packed = copy d (slot_offset d slot) xs in
        let e1 =
          read_u16-write_u16 packed (entry slot + 2) (length xs) j (omega arith) (ground arith) in
        ground arith

    bytes_at-rewrite :
        (j n : ℕ)
        → free_end d ≤ j
        → bytes_at (rewrite slot xs d) j n ≡ bytes_at (copy d (slot_offset d slot) xs) j n
    unfolding rewrite
    bytes_at-rewrite j n low =
        let l = w.layout in
        let directory = l.directory in
        let ordered = l.ordered in
        bytes_at-write_u16 (copy d (slot_offset d slot) xs) (entry slot + 2) (length xs) j n
          (omega arith)

    vacant : Vacant d slot (slot_offset d slot) (length xs)
    unfolding Vacant Disjoint
    vacant i lt_i other live = elim (Bool-cases (ltb i slot)) [
      | inl e ↦ let h = w.disjoint i slot (ground arith) lt live (omega arith) in omega arith
      | inr e ↦ let h = w.disjoint slot i (ground arith) lt_i (omega arith) live in omega arith
    ]

    rewrite-Edit : Edit d (rewrite slot xs d) (slot_count d) slot (slot_offset d slot) (length xs)
    unfolding rewrite Inside Vacant
    rewrite-Edit =
        let l = w.layout in
        let directory = l.directory in
        let ordered = l.ordered in
        let here = l.live slot lt (omega arith) in
        let packed = copy d (slot_offset d slot) xs in
        record {
          magic =
              has_magic-write_u16 packed (entry slot + 2) (length xs) (omega arith)
              ∙ has_magic-copy d (slot_offset d slot) xs (omega arith);
          version = let e = read_u16-rewrite 4 2 (omega arith) (omega arith) in ground arith;
          counted = let e = read_u16-rewrite 6 3 (omega arith) (omega arith) in ground arith;
          offset = λ i lt_i.
              let e = read_u16-rewrite (entry i) (8 + i * 2) (omega arith) (omega arith) in
              let same : i ≡ slot → slot_offset d i ≡ slot_offset d slot = ap (slot_offset d) in
              ground arith;
          size = λ i lt_i.
              let e = read_u16-rewrite (entry i + 2) (9 + i * 2) (omega arith) (omega arith) in
              ground arith;
          kept = λ i lt_i other live.
              let there = l.live i lt_i live in
              bytes_at-rewrite (slot_offset d i) (slot_length d i) (omega arith)
              ∙ bytes_at-copy d (slot_offset d slot) xs (slot_offset d i) (slot_length d i)
                  (vacant i lt_i other live);
        }

    pub rewrite-WellFormed : WellFormed (rewrite slot xs d)
    unfolding Inside
    rewrite-WellFormed =
        let l = w.layout in
        let directory = l.directory in
        let ordered = l.ordered in
        let here = l.live slot lt (omega arith) in
        let e = read_u16-rewrite 10 5 (omega arith) (omega arith) in
        let f = read_u16-rewrite 8 4 (omega arith) (omega arith) in
        record {
          layout =
              edit-Layout d (rewrite slot xs d) (slot_count d) slot (slot_offset d slot) (length xs)
                rewrite-Edit known l (ground arith) (ground arith) (ground arith)
                (λ p. ground arith);
          disjoint =
              edit-Disjoint d (rewrite slot xs d) (slot_count d) slot (slot_offset d slot)
                (length xs) rewrite-Edit known w.disjoint (λ p. vacant);
        }

    pub slot_count-rewrite : slot_count (rewrite slot xs d) ≡ slot_count d
    slot_count-rewrite = rewrite-Edit.counted

    pub rewrite-Stores : Stores d (rewrite slot xs d) slot (some xs)
    unfolding Stores Inside
    rewrite-Stores i =
        let here = (w.layout).live slot lt (omega arith) in
        let e =
          record_at-edit d (rewrite slot xs d) (slot_count d) slot (slot_offset d slot) (length xs)
            rewrite-Edit known i in
        let new =
          bytes_at-rewrite (slot_offset d slot) (length xs) (omega arith)
          ∙ bytes_at-copy_self d (slot_offset d slot) xs in
        ground arith
