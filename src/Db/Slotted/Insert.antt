-- ===== src/Db/Slotted/Insert.antt =====
-- `Insert`: what its writes leave in the header, in the directory and in the records.
use nexus_db.Prelude.{
  ℕ, ◌+◌, ◌-◌, ◌*◌, ◌≤◌, ◌<◌, ◌≡◌, refl, ◌∙◌, ◌⊎◌, inr, some, List, ◌==◌, if◌then◌else◌, length,
  arith,
}
use nexus_db.Db.Page.{Bytes, read_u16, write_u16, copy, bytes_at}
use nexus_db.Db.Page.Access.{
  read_u16-write_u16, read_u16-copy, bytes_at-write_u16, bytes_at-copy, bytes_at-copy_self,
}
use nexus_db.Db.Slotted.{
  slot_count, free_start, free_end, entry, slot_offset, slot_length, has_magic, place,
  slot_entry_size,
}
use nexus_db.Db.Slotted.Edit.{
  Edit, Vacant, Stores, has_magic-write_u16, has_magic-copy, edit-Layout, edit-Disjoint,
  record_at-edit,
}
use nexus_db.Db.Slotted.Layout.{Layout, WellFormed, Inside}

-- There is room for the record and for its slot.
unfoldable pub Room : Bytes → List ℕ → Type 0
Room d xs = (0 < length xs) × (slot_entry_size + length xs ≤ free_end d - free_start d)

-- Each field that `place` leaves, at an even place below the record.
read_u16-place :
    (d : Bytes) (xs : List ℕ) (j k : ℕ)
    → Layout d
    → Room d xs
    → j ≡ 2 * k
    → j + 2 ≤ free_end d - length xs
    → read_u16 (place d xs) j ≡ (
        if j == 10
        then free_end d - length xs
        else if j == 8
        then free_start d + 4
        else if j == 6
        then slot_count d + 1
        else if j == entry (slot_count d) + 2
        then length xs
        else if j == entry (slot_count d)
        then free_end d - length xs
        else read_u16 d j)
unfolding place Room
read_u16-place d xs j k l room even low =
    let directory = l.directory in
    let ordered = l.ordered in
    let bounded = l.bounded in
    let count = slot_count d in
    let new_offset = free_end d - length xs in
    let packed = copy d new_offset xs in
    let e0 = read_u16-copy d new_offset xs j (omega arith) in
    let w1 = write_u16 packed (entry count) new_offset in
    let e1 = read_u16-write_u16 packed (entry count) new_offset j (omega arith) (ground arith) in
    let w2 = write_u16 w1 (entry count + 2) (length xs) in
    let e2 = read_u16-write_u16 w1 (entry count + 2) (length xs) j (omega arith) (ground arith) in
    let w3 = write_u16 w2 6 (count + 1) in
    let e3 = read_u16-write_u16 w2 6 (count + 1) j (omega arith) (ground arith) in
    let w4 = write_u16 w3 8 (free_start d + slot_entry_size) in
    let e4 =
      read_u16-write_u16 w3 8 (free_start d + slot_entry_size) j (omega arith) (ground arith) in
    let e5 = read_u16-write_u16 w4 10 new_offset j (omega arith) (ground arith) in ground arith

-- The record region is what it was, but for the new record.
bytes_at-place :
    (d : Bytes) (xs : List ℕ) (j n : ℕ)
    → Layout d
    → Room d xs
    → free_end d - length xs ≤ j
    → bytes_at (place d xs) j n ≡ bytes_at (copy d (free_end d - length xs) xs) j n
unfolding place Room
bytes_at-place d xs j n l room low =
    let directory = l.directory in
    let count = slot_count d in
    let new_offset = free_end d - length xs in
    let packed = copy d new_offset xs in
    let w1 = write_u16 packed (entry count) new_offset in
    let w2 = write_u16 w1 (entry count + 2) (length xs) in
    let w3 = write_u16 w2 6 (count + 1) in
    let w4 = write_u16 w3 8 (free_start d + slot_entry_size) in
    bytes_at-write_u16 w4 10 new_offset j n (omega arith)
    ∙ bytes_at-write_u16 w3 8 (free_start d + slot_entry_size) j n (omega arith)
    ∙ bytes_at-write_u16 w2 6 (count + 1) j n (omega arith)
    ∙ bytes_at-write_u16 w1 (entry count + 2) (length xs) j n (omega arith)
    ∙ bytes_at-write_u16 packed (entry count) new_offset j n (omega arith)

has_magic-place :
    (d : Bytes) (xs : List ℕ) → Layout d → Room d xs → has_magic (place d xs) ≡ has_magic d
unfolding place Room
has_magic-place d xs l room =
    let directory = l.directory in
    let count = slot_count d in
    let new_offset = free_end d - length xs in
    let packed = copy d new_offset xs in
    let w1 = write_u16 packed (entry count) new_offset in
    let w2 = write_u16 w1 (entry count + 2) (length xs) in
    let w3 = write_u16 w2 6 (count + 1) in
    let w4 = write_u16 w3 8 (free_start d + slot_entry_size) in
    has_magic-write_u16 w4 10 new_offset (omega arith)
    ∙ has_magic-write_u16 w3 8 (free_start d + slot_entry_size) (omega arith)
    ∙ has_magic-write_u16 w2 6 (count + 1) (omega arith)
    ∙ has_magic-write_u16 w1 (entry count + 2) (length xs) (omega arith)
    ∙ has_magic-write_u16 packed (entry count) new_offset (omega arith)
    ∙ has_magic-copy d new_offset xs (omega arith)

place-Edit :
    (d : Bytes) (xs : List ℕ)
    → Layout d
    → Room d xs
    → Edit d (place d xs) (slot_count d + 1) (slot_count d) (free_end d - length xs) (length xs)
unfolding Room Inside
place-Edit d xs l room =
    let directory = l.directory in
    record {
      magic = has_magic-place d xs l room;
      version = let e = read_u16-place d xs 4 2 l room (omega arith) (omega arith) in ground arith;
      counted = let e = read_u16-place d xs 6 3 l room (omega arith) (omega arith) in ground arith;
      offset = λ i lt.
          let e = read_u16-place d xs (entry i) (8 + i * 2) l room (omega arith) (omega arith) in
          ground arith;
      size = λ i lt.
          let e =
            read_u16-place d xs (entry i + 2) (9 + i * 2) l room (omega arith) (omega arith) in
          ground arith;
      kept = λ i lt other live.
          let there = l.live i lt live in
          bytes_at-place d xs (slot_offset d i) (slot_length d i) l room (omega arith)
          ∙ bytes_at-copy d (free_end d - length xs) xs (slot_offset d i) (slot_length d i)
              (omega arith);
    }

known :
    (d : Bytes)
    → ((slot_count d + 1 ≡ slot_count d) × (slot_count d < slot_count d + 1))
      ⊎ ((slot_count d + 1 ≡ slot_count d + 1) × (slot_count d ≡ slot_count d))
known d = inr (refl, refl)

pub place-WellFormed :
    (d : Bytes) (xs : List ℕ) → WellFormed d → Room d xs → WellFormed (place d xs)
unfolding Room Vacant Inside
place-WellFormed d xs w room =
    let l = w.layout in
    let directory = l.directory in
    let ordered = l.ordered in
    let bounded = l.bounded in
    let edit = place-Edit d xs l room in
    let e = read_u16-place d xs 10 5 l room (omega arith) (omega arith) in
    let f = read_u16-place d xs 8 4 l room (omega arith) (omega arith) in
    record {
      layout =
          edit-Layout d (place d xs) (slot_count d + 1) (slot_count d) (free_end d - length xs)
            (length xs) edit (known d) l (ground arith) (ground arith) (ground arith)
            (λ pos. ground arith);
      disjoint =
          edit-Disjoint d (place d xs) (slot_count d + 1) (slot_count d) (free_end d - length xs)
            (length xs) edit (known d) w.disjoint
            (λ pos i lt other live. let there = l.live i lt live in omega arith);
    }

pub place-Stores :
    (d : Bytes) (xs : List ℕ)
    → Layout d
    → Room d xs
    → Stores d (place d xs) (slot_count d) (some xs)
unfolding Stores Room
place-Stores d xs l room i =
    let e =
      record_at-edit d (place d xs) (slot_count d + 1) (slot_count d) (free_end d - length xs)
        (length xs) (place-Edit d xs l room) (known d) i in
    let new =
      bytes_at-place d xs (free_end d - length xs) (length xs) l room (omega arith)
      ∙ bytes_at-copy_self d (free_end d - length xs) xs in
    ground arith

pub slot_count-place :
    (d : Bytes) (xs : List ℕ) → Layout d → Room d xs → slot_count (place d xs) ≡ slot_count d + 1
slot_count-place d xs l room = (place-Edit d xs l room).counted
