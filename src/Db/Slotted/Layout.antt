-- ===== src/Db/Slotted/Layout.antt =====
-- What `Validate` accepts: the layout that slotted_page.h draws, and the record in a slot.
use nexus_db.Prelude.{
  ℕ, zero, suc, ◌+◌, ◌≤◌, ◌<◌, ◌≡◌, refl, ◌⊎◌, inl, inr, true, Option, none, some, List, leb, ◌==◌,
  if◌then◌else◌, Bool-cases, subst, arith,
}
use nexus_db.Db.Status.{DbError}
use nexus_db.Db.Page.{Bytes, page_size, read_u16, bytes_at}
use nexus_db.Db.Slotted.{
  slot_count, free_start, free_end, entry, slot_offset, slot_length, has_magic, check_slots,
  validate,
}

-- A live slot lies in the record region, which starts at `low`.
unfoldable pub Inside : Bytes → ℕ → ℕ → Type 0
Inside d low i =
    0 < slot_length d i → (low ≤ slot_offset d i) × (slot_offset d i + slot_length d i ≤ page_size)

pub record Layout (d : Bytes) : Type 0 where
  pub magic : has_magic d ≡ true
  pub version : read_u16 d 4 ≡ 1
  pub directory : entry (slot_count d) ≤ free_start d
  pub ordered : free_start d ≤ free_end d
  pub bounded : free_end d ≤ page_size
  pub live : (i : ℕ) → i < slot_count d → Inside d (free_end d) i

-- One round of the loop of `Validate`.
check_slots-step :
    (d : Bytes) (low n i : ℕ)
    → check_slots d low (suc n) i ≡ DbError.ok
    → Inside d low i × (check_slots d low n (i + 1) ≡ DbError.ok)
unfolding check_slots Inside
check_slots-step d low n i ok = ((λ pos. ground arith), ground arith)

check_slots-Inside :
    (d : Bytes) (low n i k : ℕ)
    → check_slots d low n i ≡ DbError.ok
    → i ≤ k
    → k < i + n
    → Inside d low k
unfolding Inside
check_slots-Inside d low zero i k ok lo hi = omega arith
check_slots-Inside d low (suc n) i k ok lo hi =
    let (here, there) = check_slots-step d low n i ok in
    elim (Bool-cases (i == k)) [
      | inl e ↦ let same : i ≡ k = ground arith in subst (Inside d low) same here
      | inr e ↦ check_slots-Inside d low n (i + 1) k there (ground arith) (omega arith)
    ]

Inside-check_slots :
    (d : Bytes) (low n i : ℕ)
    → ((k : ℕ) → i ≤ k → k < i + n → Inside d low k)
    → check_slots d low n i ≡ DbError.ok
unfolding check_slots Inside
Inside-check_slots d low zero i h = refl
Inside-check_slots d low (suc n) i h =
    let rest = Inside-check_slots d low n (i + 1) (λ k lo hi. h k (omega arith) (omega arith)) in
    let here = h i (omega arith) (omega arith) in ground arith

pub validate-Layout : (d : Bytes) → validate d ≡ DbError.ok → Layout d
unfolding validate
validate-Layout d ok = record {
  magic = ground arith;
  version = ground arith;
  directory = ground arith;
  ordered = ground arith;
  bounded = ground arith;
  live = λ i lt.
      check_slots-Inside d (free_end d) (slot_count d) 0 i (ground arith) (omega arith)
        (omega arith);
}

pub Layout-validate : (d : Bytes) → Layout d → validate d ≡ DbError.ok
unfolding validate
Layout-validate d l =
    let slots =
      Inside-check_slots d (free_end d) (slot_count d) 0 (λ k lo hi. l.live k (omega arith)) in
    let magic = l.magic in
    let version = l.version in
    let directory = l.directory in
    let ordered = l.ordered in let bounded = l.bounded in ground arith

-- The record in slot `i`, where a record is.
unfoldable pub record_at : Bytes → ℕ → Option (List ℕ)
record_at d i =
    if leb (slot_count d) i
    then none
    else if slot_length d i == 0
    then none
    else some (bytes_at d (slot_offset d i) (slot_length d i))

pub record_at-none :
    (d : Bytes) (i : ℕ) → (slot_count d ≤ i) ⊎ (slot_length d i ≡ 0) → record_at d i ≡ none
unfolding record_at
record_at-none d i h = ground arith

pub record_at-some :
    (d : Bytes) (i : ℕ)
    → i < slot_count d
    → 0 < slot_length d i
    → record_at d i ≡ some (bytes_at d (slot_offset d i) (slot_length d i))
unfolding record_at
record_at-some d i lt pos = ground arith

-- Live records do not share bytes. `Validate` does not ask for this, and `Update` needs it.
unfoldable pub Disjoint : Bytes → Type 0
Disjoint d =
    (i j : ℕ)
    → i < j
    → j < slot_count d
    → 0 < slot_length d i
    → 0 < slot_length d j
    → (slot_offset d i + slot_length d i ≤ slot_offset d j)
      ⊎ (slot_offset d j + slot_length d j ≤ slot_offset d i)

pub record WellFormed (d : Bytes) : Type 0 where
  pub layout : Layout d
  pub disjoint : Disjoint d
