-- ===== src/Db/Slotted/Relocate.antt =====
-- `Update` of a record that grows: its bytes go to the end of the free region, the slot follows.
use nexus_db.Prelude.{
  ℕ, ◌+◌, ◌-◌, ◌*◌, ◌≤◌, ◌<◌, ◌≡◌, refl, ◌∙◌, ◌⊎◌, inl, some, List, ◌==◌, if◌then◌else◌, length,
  arith,
}
use nexus_db.Db.Page.{Bytes, read_u16, write_u16, copy, bytes_at}
use nexus_db.Db.Page.Access.{
  read_u16-write_u16, read_u16-copy, bytes_at-write_u16, bytes_at-copy, bytes_at-copy_self,
}
use nexus_db.Db.Slotted.{
  slot_count, free_start, free_end, entry, slot_offset, slot_length, relocate,
}
use nexus_db.Db.Slotted.Edit.{
  Edit, Vacant, Stores, has_magic-write_u16, has_magic-copy, edit-Layout, edit-Disjoint,
  record_at-edit,
}
use nexus_db.Db.Slotted.Layout.{WellFormed, Inside}

module _ (d : Bytes) (slot : ℕ) (xs : List ℕ) (w : WellFormed d) (lt : slot < slot_count d)
    (room : (0 < length xs) × (length xs ≤ free_end d - free_start d)) where
  known :
      ((slot_count d ≡ slot_count d) × (slot < slot_count d))
      ⊎ ((slot_count d ≡ slot_count d + 1) × (slot ≡ slot_count d))
  known = inl (refl, lt)

  read_u16-relocate :
      (j k : ℕ)
      → j ≡ 2 * k
      → j + 2 ≤ free_start d
      → read_u16 (relocate slot xs d) j ≡ (
          if j == 10
          then free_end d - length xs
          else if j == entry slot + 2
          then length xs
          else if j == entry slot
          then free_end d - length xs
          else read_u16 d j)
  unfolding relocate
  read_u16-relocate j k even low =
      let l = w.layout in
      let directory = l.directory in
      let ordered = l.ordered in
      let bounded = l.bounded in
      let new_offset = free_end d - length xs in
      let packed = copy d new_offset xs in
      let e0 = read_u16-copy d new_offset xs j (omega arith) in
      let w1 = write_u16 packed (entry slot) new_offset in
      let e1 = read_u16-write_u16 packed (entry slot) new_offset j (omega arith) (ground arith) in
      let w2 = write_u16 w1 (entry slot + 2) (length xs) in
      let e2 = read_u16-write_u16 w1 (entry slot + 2) (length xs) j (omega arith) (ground arith) in
      let e3 = read_u16-write_u16 w2 10 new_offset j (omega arith) (ground arith) in ground arith

  bytes_at-relocate :
      (j n : ℕ)
      → free_end d - length xs ≤ j
      → bytes_at (relocate slot xs d) j n ≡ bytes_at (copy d (free_end d - length xs) xs) j n
  unfolding relocate
  bytes_at-relocate j n low =
      let l = w.layout in
      let directory = l.directory in
      let ordered = l.ordered in
      let new_offset = free_end d - length xs in
      let packed = copy d new_offset xs in
      let w1 = write_u16 packed (entry slot) new_offset in
      let w2 = write_u16 w1 (entry slot + 2) (length xs) in
      bytes_at-write_u16 w2 10 new_offset j n (omega arith)
      ∙ bytes_at-write_u16 w1 (entry slot + 2) (length xs) j n (omega arith)
      ∙ bytes_at-write_u16 packed (entry slot) new_offset j n (omega arith)

  relocate-Edit :
      Edit d (relocate slot xs d) (slot_count d) slot (free_end d - length xs) (length xs)
  unfolding relocate Inside
  relocate-Edit =
      let l = w.layout in
      let directory = l.directory in
      let ordered = l.ordered in
      let new_offset = free_end d - length xs in
      let packed = copy d new_offset xs in
      let w1 = write_u16 packed (entry slot) new_offset in
      let w2 = write_u16 w1 (entry slot + 2) (length xs) in
      record {
        magic =
            has_magic-write_u16 w2 10 new_offset (omega arith)
            ∙ has_magic-write_u16 w1 (entry slot + 2) (length xs) (omega arith)
            ∙ has_magic-write_u16 packed (entry slot) new_offset (omega arith)
            ∙ has_magic-copy d new_offset xs (omega arith);
        version = let e = read_u16-relocate 4 2 (omega arith) (omega arith) in ground arith;
        counted = let e = read_u16-relocate 6 3 (omega arith) (omega arith) in ground arith;
        offset = λ i lt_i.
            let e = read_u16-relocate (entry i) (8 + i * 2) (omega arith) (omega arith) in
            ground arith;
        size = λ i lt_i.
            let e = read_u16-relocate (entry i + 2) (9 + i * 2) (omega arith) (omega arith) in
            ground arith;
        kept = λ i lt_i other live.
            let there = l.live i lt_i live in
            bytes_at-relocate (slot_offset d i) (slot_length d i) (omega arith)
            ∙ bytes_at-copy d new_offset xs (slot_offset d i) (slot_length d i) (omega arith);
      }

  pub relocate-WellFormed : WellFormed (relocate slot xs d)
  unfolding Vacant Inside
  relocate-WellFormed =
      let l = w.layout in
      let directory = l.directory in
      let ordered = l.ordered in
      let bounded = l.bounded in
      let e = read_u16-relocate 10 5 (omega arith) (omega arith) in
      let f = read_u16-relocate 8 4 (omega arith) (omega arith) in
      record {
        layout =
            edit-Layout d (relocate slot xs d) (slot_count d) slot (free_end d - length xs)
              (length xs) relocate-Edit known l (ground arith) (ground arith) (ground arith)
              (λ pos. ground arith);
        disjoint =
            edit-Disjoint d (relocate slot xs d) (slot_count d) slot (free_end d - length xs)
              (length xs) relocate-Edit known w.disjoint
              (λ pos i lt_i other live. let there = l.live i lt_i live in omega arith);
      }

  pub slot_count-relocate : slot_count (relocate slot xs d) ≡ slot_count d
  slot_count-relocate = relocate-Edit.counted

  pub relocate-Stores : Stores d (relocate slot xs d) slot (some xs)
  unfolding Stores
  relocate-Stores i =
      let e =
        record_at-edit d (relocate slot xs d) (slot_count d) slot (free_end d - length xs)
          (length xs) relocate-Edit known i in
      let new =
        bytes_at-relocate (free_end d - length xs) (length xs) (omega arith)
        ∙ bytes_at-copy_self d (free_end d - length xs) xs in
      ground arith
