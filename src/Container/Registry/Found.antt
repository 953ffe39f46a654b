-- ===== src/Container/Registry/Found.antt =====
-- What the lookups of the registry find.
use nexus_db.Prelude.{
  ℕ, ◌≡◌, ◌<◌, true, false, Option, none, some, List, arith, Str, str_eq_iff, length, Bool-cases,
  Option-cases, inl, inr, copy_into, copy_into_self,
}
use nexus_db.Prelude.Search.{find_index-passes}
use nexus_db.Rc.{Rc}
use nexus_db.Container.Types.{name_max}
use nexus_db.Container.Registry.{
  Slot, zero_slot, holds, name_valid, find_slot, free_slot, claim_slot, slot_at, or_empty, Registry,
  container_get, with_slot,
}

pub record Found (slots : List Slot) (name : Option Str) (i : ℕ) : Type 0 where
  pub in_use : (slot_at slots i).in_use ≡ true
  pub named : some (slot_at slots i).c.name ≡ name
  pub within : i < length slots

holds-named : (n : Str) (s : Slot) → holds n s ≡ true → (s.in_use ≡ true) × (some s.c.name ≡ some n)
holds-named n s h = ground (arith, str_eq_iff s.c.name n)

pub find_slot-Found :
    (slots : List Slot) (name : Option Str) (i : ℕ)
    → find_slot slots name ≡ some i
    → Found slots name i
unfolding find_slot
find_slot-Found slots none i h = cc
find_slot-Found slots (some n) i h =
    let (lt, p) = find_index-passes (holds n) slots i zero_slot h in
    let (used, named) = holds-named n (slot_at slots i) p in
    record { in_use = used; named = named; within = lt }

pub claim_slot-found :
    (slots : List Slot) (name : Option Str) (i : ℕ)
    → find_slot slots name ≡ some i
    → claim_slot slots name ≡ some i
unfolding claim_slot
claim_slot-found slots name i h = rw (h, claim_slot)

pub claim_slot-new :
    (slots : List Slot) (name : Option Str)
    → find_slot slots name ≡ none
    → claim_slot slots name ≡ free_slot slots
unfolding claim_slot
claim_slot-new slots name h = rw (h, claim_slot)

pub container_get-find :
    (r : Registry) (name : Option Str) (i : ℕ)
    → find_slot r.slots name ≡ some i
    → container_get r name ≡ some (slot_at r.slots i).c
unfolding container_get
container_get-find r name i h = rw (h, container_get)

pub container_get-none :
    (r : Registry) (name : Option Str) → find_slot r.slots name ≡ none → container_get r name ≡ none
unfolding container_get
container_get-none r name h = rw (h, container_get)

-- The cases of an operation that looks its container up.
pub with_slot-cases {ℓ} :
    {W : Type 0} (P : Rc × Registry × W → Type ℓ) (name : Option Str) (r : Registry) (w : W)
    (k : ℕ → Rc × Registry × W)
    → (name_valid name ≡ false → P (Rc.invalid, r, w))
    → (name_valid name ≡ true → find_slot r.slots name ≡ none → P (Rc.not_found, r, w))
    → ((i : ℕ) → name_valid name ≡ true → find_slot r.slots name ≡ some i → P (k i))
    → P (with_slot name r w k)
unfolding with_slot
with_slot-cases P name r w k bad missing found = elim (Bool-cases (name_valid name)) [
  | inr e ↦ rw e (bad e)
  | inl e ↦ elim (Option-cases (find_slot r.slots name)) [
    | inl o ↦ rw (e, o) (missing e o)
    | inr (i, o) ↦ rw (e, o) (found i e o)
  ]
]

-- A name that passes the check fits its array and is copied whole.
pub name_valid-copied :
    (name : Option Str) → name_valid name ≡ true → some (copy_into name_max (or_empty name)) ≡ name
unfolding name_valid
name_valid-copied none h = cc
name_valid-copied (some n) h = rw (copy_into_self name_max n (ground arith))
