-- ===== src/Db/Slotted/Space.antt =====
-- The records of a well-formed page fit in its record region, so `Compact` never refuses one.
use nexus_db.Prelude.{
  ℕ, zero, suc, ◌+◌, ◌-◌, ◌≤◌, ◌<◌, ◌≡◌, refl, ap, ◌∙◌, inl, inr, false, ◌&&◌, some, ltb, leb, ◌==◌,
  if◌then◌else◌, Bool-cases, arith,
}
use nexus_db.Db.Page.{Bytes, page_size}
use nexus_db.Db.Slotted.{slot_count, free_end, slot_offset, slot_length, total_live}
use nexus_db.Db.Slotted.Layout.{Inside, Disjoint, WellFormed}
use nexus_db.Db.Slotted.Pack.{sum_live}

-- Byte `c` is one of the `n` bytes at `a`.
within : ℕ → ℕ → ℕ → ℕ
within a n c = if leb a c && ltb c (a + n) then 1 else 0

-- The records among `n` slots from slot `i` that have byte `c`.
covers : Bytes → ℕ → ℕ → ℕ → ℕ
covers d zero i c = 0
covers d (suc n) i c = within (slot_offset d i) (slot_length d i) c + covers d n (i + 1) c

area : (ℕ → ℕ) → ℕ → ℕ
area f zero = 0
area f (suc m) = area f m + f m

area-within : (a n m : ℕ) → area (within a n) m ≡ (m - a) - (m - (a + n))
unfolding area within
area-within a n zero = omega arith
area-within a n (suc m) = let rest = area-within a n m in ground arith

area-add : (f g : ℕ → ℕ) (m : ℕ) → area (λ c. f c + g c) m ≡ area f m + area g m
unfolding area
area-add f g zero = refl
area-add f g (suc m) = let rest = area-add f g m in omega arith

area-zero : (m : ℕ) → area (λ c. 0) m ≡ 0
unfolding area
area-zero zero = refl
area-zero (suc m) = let rest = area-zero m in omega arith

area-covers :
    (d : Bytes) (n i : ℕ)
    → ((k : ℕ)
        → i ≤ k
        → k < i + n
        → 0 < slot_length d k
        → slot_offset d k + slot_length d k ≤ page_size)
    → area (covers d n i) page_size ≡ sum_live d n i
unfolding covers sum_live
area-covers d zero i h = area-zero page_size
area-covers d (suc n) i h =
    let rest = area-covers d n (i + 1) (λ k lo hi. h k (omega arith) (omega arith)) in
    let here = area-within (slot_offset d i) (slot_length d i) page_size in
    let both =
      area-add (within (slot_offset d i) (slot_length d i)) (covers d n (i + 1)) page_size in
    let low = h i (omega arith) (omega arith) in both ∙ ground arith

covers-zero :
    (d : Bytes) (n i c : ℕ)
    → ((k : ℕ) → i ≤ k → k < i + n → within (slot_offset d k) (slot_length d k) c ≡ 0)
    → covers d n i c ≡ 0
unfolding covers
covers-zero d zero i c h = refl
covers-zero d (suc n) i c h =
    let rest = covers-zero d n (i + 1) c (λ k lo hi. h k (omega arith) (omega arith)) in
    let here = h i (omega arith) (omega arith) in omega arith

covers-once : (d : Bytes) (n i c : ℕ) → Disjoint d → i + n ≤ slot_count d → covers d n i c ≤ 1
unfolding covers within Disjoint
covers-once d zero i c apart le = omega arith
covers-once d (suc n) i c apart le =
    let rest = covers-once d n (i + 1) c apart (omega arith) in
    elim (Bool-cases (leb (slot_offset d i) c && ltb c (slot_offset d i + slot_length d i))) [
      | inl e ↦
          let none =
            covers-zero d n (i + 1) c
              (λ k lo hi. let h = apart i k (omega arith) (omega arith) in ground arith) in
          ground arith
      | inr e ↦ ground arith
    ]

area-bound :
    (f : ℕ → ℕ) (low m : ℕ)
    → ((c : ℕ) → f c ≤ 1)
    → ((c : ℕ) → c < low → f c ≡ 0)
    → area f m ≤ m - low
unfolding area
area-bound f low zero one clear = omega arith
area-bound f low (suc m) one clear =
    let rest = area-bound f low m one clear in
    let here = one m in
    let gone = clear m in
    elim (Bool-cases (ltb m low)) [
      | inl e ↦ let z = gone (ground arith) in omega arith
      | inr e ↦ ground arith
    ]

pub sum_live-fits :
    (d : Bytes) → WellFormed d → sum_live d (slot_count d) 0 ≤ page_size - free_end d
unfolding Inside within
sum_live-fits d w =
    let l = w.layout in
    let total =
      area-covers d (slot_count d) 0
        (λ k lo hi pos. let there = l.live k (omega arith) pos in omega arith) in
    let bound =
      area-bound (covers d (slot_count d) 0) (free_end d) page_size
        (λ c. covers-once d (slot_count d) 0 c w.disjoint (omega arith))
        (λ c lt.
          covers-zero d (slot_count d) 0 c
            (λ k lo hi. let there = l.live k (omega arith) in ground arith)) in
    omega arith

total_live-some :
    (d : Bytes) (n i total : ℕ)
    → total + sum_live d n i ≤ page_size
    → total_live d n i total ≡ some (total + sum_live d n i)
unfolding total_live sum_live
total_live-some d zero i total le = ap some (omega arith)
total_live-some d (suc n) i total le =
    let eq : total + slot_length d i + sum_live d n (i + 1)
        ≡ total + (slot_length d i + sum_live d n (i + 1)) =
      omega arith in
    elim (Bool-cases (slot_length d i == 0)) [
      | inl z ↦
          let skipped = total_live-some d n (i + 1) total (ground arith) in
          let zero_len : slot_length d i ≡ 0 = ground arith in
          rw (z, zero_len) (skipped ∙ ap some (omega arith))
      | inr z ↦
          let added = total_live-some d n (i + 1) (total + slot_length d i) (omega arith) in
          let small : ltb page_size (total + slot_length d i) ≡ false = ground arith in
          rw (z, small) (added ∙ ap some eq)
    ]

pub total_live-WellFormed :
    (d : Bytes)
    → WellFormed d
    → total_live d (slot_count d) 0 0 ≡ some (sum_live d (slot_count d) 0)
total_live-WellFormed d w =
    let fits = sum_live-fits d w in
    total_live-some d (slot_count d) 0 0 (omega arith) ∙ ap some (omega arith)
