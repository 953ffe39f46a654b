-- ===== src/Db/Slotted/Reads.antt =====
-- `Read`, `Scan`, `live_count` and `free_bytes` against the slots that have a record, and the page
-- that `Init` makes.
use nexus_db.Prelude.{
  ℕ, zero, suc, ◌+◌, ◌-◌, ◌≤◌, ◌≡◌, refl, ap, inl, inr, Bool, false, not, Option, none, some, List,
  [], ◌∷◌, ltb, leb, ◌==◌, if◌then◌else◌, length, Bool-cases, arith,
}
use nexus_db.Db.Status.{DbError}
use nexus_db.Db.Page.{Bytes, page_size, read_u16, write_u16, clear, bytes_at}
use nexus_db.Db.Slotted.{
  slot_count, free_start, slot_offset, slot_length, has_magic, header_size, init, free_bytes, read,
  compact,
}
use nexus_db.Db.Slotted.Layout.{
  Layout, Inside, Disjoint, WellFormed, record_at, record_at-none, record_at-some, Layout-validate,
}
use nexus_db.Db.Slotted.Compact.{free_start-repack, free_end-repack}
use nexus_db.Db.Slotted.Pack.{sum_live}
use nexus_db.Db.Slotted.Space.{sum_live-fits, total_live-WellFormed}
use nexus_db.Db.Slotted.{scan, scan_slots, count_live, live_count}

-- The answer to `Read`.
unfoldable pub looked_up : Option (List ℕ) → DbError × Option (List ℕ)
looked_up none = (DbError.not_found, none)
looked_up (some xs) = (DbError.ok, some xs)

-- On a page with a valid layout `Read` gives the record of its slot, kNotFound for a deleted slot
-- and kInvalidArgument for one that never was.
pub read-contents :
    (d : Bytes) (slot : ℕ)
    → Layout d
    → read slot d ≡ (
        if leb (slot_count d) slot
        then (DbError.invalid_argument, none)
        else looked_up (record_at d slot))
unfolding read looked_up
read-contents d slot l =
    let valid = Layout-validate d l in
    elim (Bool-cases (leb (slot_count d) slot)) [
      | inl e ↦ rw (valid, e) refl
      | inr e ↦ elim (Bool-cases (slot_length d slot == 0)) [
        | inl z ↦ rw (valid, e, z, record_at-none d slot (ground arith)) refl
        | inr z ↦ rw (valid, e, z, record_at-some d slot (ground arith) (ground arith)) refl
      ]
    ]

-- A record and its slot, in front of the others.
unfoldable pub cons_live : ℕ → Option (List ℕ) → List (ℕ × List ℕ) → List (ℕ × List ℕ)
cons_live i none rest = rest
cons_live i (some xs) rest = (i, xs) ∷ rest

-- The records of `n` slots from slot `i`, in slot order.
unfoldable pub listed : (ℕ → Option (List ℕ)) → ℕ → ℕ → List (ℕ × List ℕ)
listed at zero i = []
listed at (suc n) i = cons_live i (at i) (listed at n (i + 1))

-- Calls `fn` for each record of a list until it answers `false`.
unfoldable pub visit : {C : Type 0} → (ℕ → List ℕ → C → Bool × C) → List (ℕ × List ℕ) → C → C
visit fn [] ctx = ctx
visit fn ((i, xs) ∷ rest) ctx =
    let others = visit fn rest (fn i xs ctx).1 in
    if not (fn i xs ctx).0 then (fn i xs ctx).1 else others

scan_slots-listed :
    {C : Type 0} (fn : ℕ → List ℕ → C → Bool × C) (d : Bytes) (n i : ℕ) (ctx : C)
    → i + n ≤ slot_count d
    → scan_slots fn d n i ctx ≡ visit fn (listed (record_at d) n i) ctx
unfolding scan_slots visit listed cons_live
scan_slots-listed fn d zero i ctx le = refl
scan_slots-listed fn d (suc n) i ctx le =
    let skipped = scan_slots-listed fn d n (i + 1) ctx (omega arith) in
    let visited =
      scan_slots-listed fn d n (i + 1) (fn i (bytes_at d (slot_offset d i) (slot_length d i)) ctx).1
        (omega arith) in
    elim (Bool-cases (slot_length d i == 0)) [
      | inl z ↦ rw (z, record_at-none d i (ground arith)) skipped
      | inr z ↦ rw (z, record_at-some d i (ground arith) (ground arith), visited) refl
    ]

count_live-listed :
    (d : Bytes) (n i : ℕ)
    → i + n ≤ slot_count d
    → count_live d n i ≡ length (listed (record_at d) n i)
unfolding count_live listed cons_live
count_live-listed d zero i le = refl
count_live-listed d (suc n) i le =
    let rest = count_live-listed d n (i + 1) (omega arith) in
    elim (Bool-cases (slot_length d i == 0)) [
      | inl z ↦ rw (z, record_at-none d i (ground arith)) rest
      | inr z ↦ rw (z, record_at-some d i (ground arith) (ground arith)) (ap suc rest)
    ]

-- On a page with a valid layout `Scan` calls its callback for the live records in slot order until
-- it answers `false`, and `live_count` is the number of those records.
pub scan-listed :
    {C : Type 0} (fn : ℕ → List ℕ → C → Bool × C) (d : Bytes) (ctx : C)
    → Layout d
    → (scan (some fn) d ctx ≡ (DbError.ok, visit fn (listed (record_at d) (slot_count d) 0) ctx))
      × (live_count d ≡ length (listed (record_at d) (slot_count d) 0))
unfolding scan live_count
scan-listed fn d ctx l = (
  rw (Layout-validate d l, scan_slots-listed fn d (slot_count d) 0 ctx (omega arith)) refl,
  count_live-listed d (slot_count d) 0 (omega arith),
)

-- After `Compact` of a well-formed page what is free is the page but for what is below `free_start`
-- and the bytes of the live records, and it is no less than before.
pub free_bytes-compact :
    (scratch d : Bytes)
    → WellFormed d
    → (free_bytes (compact scratch d).1 ≡ page_size - free_start d - sum_live d (slot_count d) 0)
      × (free_bytes d ≤ free_bytes (compact scratch d).1)
unfolding compact free_bytes
free_bytes-compact scratch d w =
    let l = w.layout in
    let ordered = l.ordered in
    let bounded = l.bounded in
    let fits = sum_live-fits d w in
    let small : ltb (page_size - free_start d) (sum_live d (slot_count d) 0) ≡ false =
      ground arith in
    let low = free_start-repack scratch d l (omega arith) in
    let high = free_end-repack scratch d l (omega arith) in
    rw (Layout-validate d l, total_live-WellFormed d w, small, low, high) (ground arith)

-- The page of `Init` has the whole page but the header free.
pub init-WellFormed :
    (d : Bytes)
    → WellFormed (init d)
      × (slot_count (init d) ≡ 0)
      × (free_bytes (init d) ≡ page_size - header_size)
unfolding init read_u16 write_u16 clear has_magic free_bytes Disjoint Inside
init-WellFormed d = (
  record {
    layout = record {
      magic = refl;
      version = refl;
      directory = omega arith;
      ordered = omega arith;
      bounded = omega arith;
      live = λ i lt. omega arith;
    };
    disjoint = λ i j lt below. omega arith;
  },
  refl,
  refl,
)
