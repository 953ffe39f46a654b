-- ===== src/Db/Slotted/Edit.antt =====
-- A change of one slot: what the header, the directory and the records must be afterwards for the
-- layout to be kept and for the other slots to keep their records.
use nexus_db.Prelude.{
  ℕ, ◌+◌, ◌≤◌, ◌<◌, ◌≡◌, refl, sym, ◌∙◌, ◌⊎◌, inl, inr, false, Option, none, some, List, leb, ◌==◌,
  if◌then◌else◌, Bool-cases, arith,
}
use nexus_db.Db.Page.{Bytes, page_size, read_u16, write_u16, copy, clear, bytes_at}
use nexus_db.Db.Page.Access.{Apart}
use nexus_db.Db.Slotted.{
  slot_count, free_start, free_end, entry, slot_offset, slot_length, has_magic,
}
use nexus_db.Db.Slotted.Layout.{Layout, Disjoint, record_at, record_at-none, record_at-some, Inside}

pub has_magic-write_u16 : (d : Bytes) (i v : ℕ) → 4 ≤ i → has_magic (write_u16 d i v) ≡ has_magic d
unfolding has_magic write_u16
has_magic-write_u16 d i v h =
    let b0 : write_u16 d i v 0 ≡ d 0 = ground arith in
    let b1 : write_u16 d i v 1 ≡ d 1 = ground arith in
    let b2 : write_u16 d i v 2 ≡ d 2 = ground arith in
    let b3 : write_u16 d i v 3 ≡ d 3 = ground arith in rw (b0, b1, b2, b3) refl

pub has_magic-copy :
    (d : Bytes) (i : ℕ) (xs : List ℕ) → 4 ≤ i → has_magic (copy d i xs) ≡ has_magic d
unfolding has_magic copy
has_magic-copy d i xs h =
    let b0 : copy d i xs 0 ≡ d 0 = ground arith in
    let b1 : copy d i xs 1 ≡ d 1 = ground arith in
    let b2 : copy d i xs 2 ≡ d 2 = ground arith in
    let b3 : copy d i xs 3 ≡ d 3 = ground arith in rw (b0, b1, b2, b3) refl

pub has_magic-clear : (d : Bytes) (i n : ℕ) → 4 ≤ i → has_magic (clear d i n) ≡ has_magic d
unfolding has_magic clear
has_magic-clear d i n h =
    let b0 : clear d i n 0 ≡ d 0 = ground arith in
    let b1 : clear d i n 1 ≡ d 1 = ground arith in
    let b2 : clear d i n 2 ≡ d 2 = ground arith in
    let b3 : clear d i n 3 ≡ d 3 = ground arith in rw (b0, b1, b2, b3) refl

-- Slot `slot` of the page `after` has the record `x`, and the others have theirs of `before`.
unfoldable pub Stores : Bytes → Bytes → ℕ → Option (List ℕ) → Type 0
Stores before after slot x =
    (i : ℕ) → record_at after i ≡ (if i == slot then x else record_at before i)

-- The page `after` has `count` slots, and slot `slot` says `off` and `len`.
pub record Edit (before after : Bytes) (count slot off len : ℕ) : Type 0 where
  pub magic : has_magic after ≡ has_magic before
  pub version : read_u16 after 4 ≡ read_u16 before 4
  pub counted : slot_count after ≡ count
  pub offset :
      (i : ℕ) → i < count → slot_offset after i ≡ (if i == slot then off else slot_offset before i)
  pub size :
      (i : ℕ) → i < count → slot_length after i ≡ (if i == slot then len else slot_length before i)
  pub kept :
      (i : ℕ)
      → i < slot_count before
      → (i == slot) ≡ false
      → 0 < slot_length before i
      → bytes_at after (slot_offset before i) (slot_length before i)
        ≡ bytes_at before (slot_offset before i) (slot_length before i)

-- The new place of the slot's record is free.
unfoldable pub Vacant : Bytes → ℕ → ℕ → ℕ → Type 0
Vacant d slot off len =
    (i : ℕ)
    → i < slot_count d
    → (i == slot) ≡ false
    → 0 < slot_length d i
    → Apart off len (slot_offset d i) (slot_length d i)

module _ (d d' : Bytes) (count slot off len : ℕ) (edit : Edit d d' count slot off len)
    (known : ((count ≡ slot_count d) × (slot < count))
      ⊎ ((count ≡ slot_count d + 1) × (slot ≡ slot_count d))) where
  pub edit-Layout :
      Layout d
      → entry count ≤ free_start d'
      → free_start d' ≤ free_end d'
      → free_end d' ≤ free_end d
      → (0 < len → (free_end d' ≤ off) × (off + len ≤ page_size))
      → Layout d'
  unfolding Inside
  edit-Layout l room ordered lower inside =
      let directory = l.directory in
      let bounded = l.bounded in
      let counted = edit.counted in
      record {
        magic = edit.magic ∙ l.magic;
        version = edit.version ∙ l.version;
        directory = omega arith;
        ordered = ordered;
        bounded = omega arith;
        live = λ i lt pos.
            let o = edit.offset i (omega arith) in
            let s = edit.size i (omega arith) in
            elim (Bool-cases (i == slot)) [
              | inl e ↦ let here = inside (ground arith) in ground arith
              | inr e ↦
                  let was : i < slot_count d = ground arith in
                  let there = l.live i was (ground arith) in ground arith
            ];
      }

  pub edit-Disjoint : Disjoint d → (0 < len → Vacant d slot off len) → Disjoint d'
  unfolding Disjoint Vacant
  edit-Disjoint apart vacant i j lt below live_i live_j =
      let counted = edit.counted in
      let o_i = edit.offset i (omega arith) in
      let s_i = edit.size i (omega arith) in
      let o_j = edit.offset j (omega arith) in
      let s_j = edit.size j (omega arith) in
      elim (Bool-cases (i == slot)) [
        | inl e ↦
            let other : (j == slot) ≡ false = ground arith in
            let here = vacant (ground arith) j (ground arith) other (ground arith) in ground arith
        | inr e ↦ elim (Bool-cases (j == slot)) [
          | inl e' ↦
              let here = vacant (ground arith) i (ground arith) e (ground arith) in ground arith
          | inr e' ↦
              let here = apart i j lt (ground arith) (ground arith) (ground arith) in ground arith
        ]
      ]

  pub record_at-edit :
      (i : ℕ)
      → record_at d' i ≡ (
          if i == slot
          then (if len == 0 then none else some (bytes_at d' off len))
          else record_at d i)
  record_at-edit i =
      let counted = edit.counted in
      elim (Bool-cases (leb count i)) [
        | inl out ↦
            let gone = record_at-none d' i (ground arith) in
            let was = record_at-none d i (ground arith) in ground arith
        | inr inside ↦
            let lt : i < count = ground arith in
            let o = edit.offset i lt in
            let s = edit.size i lt in
            elim (Bool-cases (i == slot)) [
              | inl e ↦ elim (Bool-cases (len == 0)) [
                | inl z ↦ let gone = record_at-none d' i (ground arith) in ground arith
                | inr z ↦
                    let here = record_at-some d' i (omega arith) (ground arith) in
                    let same_off : slot_offset d' i ≡ off = ground arith in
                    let same_len : slot_length d' i ≡ len = ground arith in
                    here ∙ rw (same_off, same_len, e, z) refl
              ]
              | inr e ↦
                  let old : i < slot_count d = ground arith in
                  let same_off : slot_offset d' i ≡ slot_offset d i = ground arith in
                  let same_len : slot_length d' i ≡ slot_length d i = ground arith in
                  elim (Bool-cases (slot_length d i == 0)) [
                    | inl z ↦
                        let gone = record_at-none d' i (ground arith) in
                        let was = record_at-none d i (ground arith) in ground arith
                    | inr z ↦
                        let now = record_at-some d' i (omega arith) (ground arith) in
                        let was = record_at-some d i old (ground arith) in
                        let kept = edit.kept i old e (ground arith) in
                        now ∙ rw (same_off, same_len, kept, e) (sym was)
                  ]
            ]
      ]
