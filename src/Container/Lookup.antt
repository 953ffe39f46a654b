-- ===== src/Container/Lookup.antt =====
-- What `container_get` gives after a call: other names keep their records, and the name that the
-- call is about has the record that was written.
use nexus_db.Prelude.{
  ℕ, ◌<◌, ◌≡◌, refl, ◌∙◌, sym, subst, ap, ◌≢◌, ◌⊎◌, inl, inr, true, false, Option, none, some, List,
  arith, Str, str_eq_iff, length, set, Bool-cases, Option-cases,
}
use nexus_db.Prelude.Search.{
  get_or-set_self, get_or-set_ne, find_index-passes, find_index-set_fails, find_index-set_found,
  find_index-set_new,
}
use nexus_db.Container.Host.{Host}
use nexus_db.Container.Registry.{
  Slot, zero_slot, Registry, holds, is_free, find_slot, free_slot, claim_slot, slot_at,
  container_get,
}
use nexus_db.Container.Registry.Found.{
  container_get-find, container_get-none, find_slot-Found, claim_slot-found, claim_slot-new,
}
use nexus_db.Container.Calls.{Call, subject, perform}
use nexus_db.Container.Touches.{same, wrote, perform-Touches}

-- The slot that is claimed for a name holds it, or is free while no slot holds it.
pub claim_slot-cases :
    (slots : List Slot) (name : Option Str) (i : ℕ)
    → claim_slot slots name ≡ some i
    → (find_slot slots name ≡ some i) ⊎ ((find_slot slots name ≡ none) × (free_slot slots ≡ some i))
claim_slot-cases slots name i h = elim (Option-cases (find_slot slots name)) [
  | inl e ↦ inr (e, sym (claim_slot-new slots name e) ∙ h)
  | inr (j, e) ↦ inl (e ∙ sym (claim_slot-found slots name j e) ∙ h)
]

pub claim_slot-lt :
    (slots : List Slot) (name : Option Str) (i : ℕ)
    → claim_slot slots name ≡ some i
    → i < length slots
unfolding free_slot
claim_slot-lt slots name i h = elim (claim_slot-cases slots name i h) [
  | inl e ↦ (find_slot-Found slots name i e).within
  | inr (_, e) ↦ (find_index-passes is_free slots i zero_slot e).0
]

-- A slot of another name, or a free one.
holds_other :
    (slots : List Slot) (name : Option Str) (i : ℕ) (m : Str)
    → claim_slot slots name ≡ some i
    → some m ≢ name
    → holds m (slot_at slots i) ≡ false
unfolding free_slot
holds_other slots name i m h ne = elim (Bool-cases (holds m (slot_at slots i))) [
  | inr e ↦ e
  | inl e ↦ elim (claim_slot-cases slots name i h) [
    | inl f ↦ absurd (
        ne (
          ground
            (arith, str_eq_iff (slot_at slots i).c.name m, (find_slot-Found slots name i f).named)))
    | inr (_, f) ↦ ground (arith, (find_index-passes is_free slots i zero_slot f).1)
  ]
]

-- A slot that was written with a record of another name.
holds_written :
    (s : Slot) (name : Option Str) (m : Str)
    → some s.c.name ≡ name
    → some m ≢ name
    → holds m s ≡ false
holds_written s name m e ne = elim (Bool-cases (holds m s)) [
  | inr h ↦ h
  | inl h ↦ absurd (ne (ground (arith, str_eq_iff s.c.name m)))
]

holds_self : (s : Slot) → s.in_use ≡ true → holds s.c.name s ≡ true
holds_self s used = rw (used, (str_eq_iff s.c.name s.c.name).1 refl)

find_slot-own :
    (slots : List Slot) (i : ℕ) (s : Slot)
    → s.in_use ≡ true
    → claim_slot slots (some s.c.name) ≡ some i
    → find_slot (set slots i s) (some s.c.name) ≡ some i
unfolding find_slot
find_slot-own slots i s used h = elim (claim_slot-cases slots (some s.c.name) i h) [
  | inl f ↦ find_index-set_found (holds s.c.name) slots i s f (holds_self s used)
  | inr (f, _) ↦
      find_index-set_new (holds s.c.name) slots i s f (claim_slot-lt slots _ i h)
        (holds_self s used)
]

-- The written slot is the one that the lookup of its name finds.
pub find_slot-written :
    (slots : List Slot) (name : Option Str) (i : ℕ) (s : Slot)
    → s.in_use ≡ true
    → some s.c.name ≡ name
    → claim_slot slots name ≡ some i
    → find_slot (set slots i s) name ≡ some i
find_slot-written slots name i s used named =
    subst (λ nm. claim_slot slots nm ≡ some i → find_slot (set slots i s) nm ≡ some i) named
      (find_slot-own slots i s used)

pub container_get-slots :
    (r r' : Registry) (name : Option Str)
    → r'.slots ≡ r.slots
    → container_get r' name ≡ container_get r name
unfolding container_get
container_get-slots r r' name h = rw h

pub container_get-written :
    (r r' : Registry) (name : Option Str) (i : ℕ) (s : Slot)
    → s.in_use ≡ true
    → some s.c.name ≡ name
    → claim_slot r.slots name ≡ some i
    → r'.slots ≡ set r.slots i s
    → container_get r' name ≡ some s.c
container_get-written r r' name i s used named h e =
    let found = find_slot-written r.slots name i s used named h in
    let self : slot_at r'.slots i ≡ s =
      rw e (get_or-set_self r.slots i s zero_slot (claim_slot-lt r.slots name i h)) in
    container_get-find r' name i (rw e found) ∙ ap (λ (t : Slot). some t.c) self

-- The other names are looked up as before.
pub find_slot-other :
    (slots : List Slot) (name m : Option Str) (i : ℕ) (s : Slot)
    → some s.c.name ≡ name
    → claim_slot slots name ≡ some i
    → m ≢ name
    → find_slot (set slots i s) m ≡ find_slot slots m
unfolding find_slot
find_slot-other slots name none i s named h ne = refl
find_slot-other slots name (some m) i s named h ne =
    find_index-set_fails (holds m) slots i s zero_slot (holds_other slots name i m h ne)
      (holds_written s name m named ne)

-- The slot of another name is not the written one.
slot_ne :
    (slots : List Slot) (name m : Option Str) (i j : ℕ)
    → claim_slot slots name ≡ some i
    → m ≢ name
    → find_slot slots m ≡ some j
    → i ≢ j
unfolding find_slot
slot_ne slots name none i j h ne f e = cc
slot_ne slots name (some m) i j h ne f e =
    let passes = (find_index-passes (holds m) slots j zero_slot f).1 in
    let fails = holds_other slots name i m h ne in cc (ap (λ k. holds m (slot_at slots k)) e)

pub container_get-other :
    (r r' : Registry) (name m : Option Str) (i : ℕ) (s : Slot)
    → some s.c.name ≡ name
    → claim_slot r.slots name ≡ some i
    → r'.slots ≡ set r.slots i s
    → m ≢ name
    → container_get r' m ≡ container_get r m
container_get-other r r' name m i s named h e ne =
    let stays : find_slot r'.slots m ≡ find_slot r.slots m =
      rw e (find_slot-other r.slots name m i s named h ne) in
    elim (Option-cases (find_slot r.slots m)) [
      | inl f ↦ container_get-none r' m (stays ∙ f) ∙ sym (container_get-none r m f)
      | inr (j, f) ↦
          let kept : slot_at r'.slots j ≡ slot_at r.slots j =
            rw e (get_or-set_ne r.slots i j s zero_slot (slot_ne r.slots name m i j h ne f)) in
          container_get-find r' m j (stays ∙ f)
          ∙ ap (λ (t : Slot). some t.c) kept
          ∙ sym (container_get-find r m j f)
    ]

-- A call changes no record but that of the name it is about.
perform_frame :
    {F : Type 0} (H : Host F) (c : Call) (r : Registry) (w : H.World) (m : Option Str)
    → m ≢ subject c
    → container_get (perform H c r w).1 m ≡ container_get r m
perform_frame H c r w m ne = elim (perform-Touches H c r w) [
  | same _ e ↦ container_get-slots r _ m e
  | wrote i s h used named e _ ↦ container_get-other r _ (subject c) m i s named h e ne
]
