-- ===== src/Container/WellFormed.antt =====
-- The registry's invariant: 64 slots, each name in one slot at most, and in every used slot a
-- record whose strings fit their arrays.
use nexus_db.Prelude.{
  ℕ, ◌≤◌, ◌<◌, ◌≡◌, refl, Bool, true, false, Option, none, some, List, [], ◌∷◌, arith, Str, length,
  All, All-replicate, length-replicate, set, length-set, length-take-le, Bool-cases, inl, inr, ◌∙◌,
  sym, subst, str_eq_iff, copy_into, codes, ◌++◌, ◌-◌, ℤ,
}
use nexus_db.Container.Types.{State, Container, name_max, id_max, path_max}
use nexus_db.Container.Host.{Host}
use nexus_db.Container.Registry.{
  Slot, zero_slot, Registry, initial, holds, name_valid, max_containers, claim_slot, slot_at,
  free_slot, find_slot, is_free, or_empty,
}
use nexus_db.Prelude.Numerals.{show_ulong6}
use nexus_db.Namespace.{NamespaceConfig}
use nexus_db.Container.Calls.{Call, create, adopt, start, stop, delete, subject, perform, run}
use nexus_db.Container.Updates.{Update}
use nexus_db.Container.Updates.{
  created, adopted, started, start_failed, stopped, deleted, delete_failed,
}
use nexus_db.Container.Touches.{same, wrote, perform-Touches}
use nexus_db.Prelude.Search.{
  count_if, count_if-set_same, count_if-set_le, count_if-none, count_if-replicate,
  find_index-passes,
}
use nexus_db.Container.Registry.Found.{find_slot-Found, name_valid-copied}
use nexus_db.Container.Records.{Has, container_get-Has, perform-Has}
use nexus_db.Container.Lookup.{claim_slot-cases}
use nexus_db.Container.Create.{CreateArgs, with_namespaces, create_rejects, new_container}
use nexus_db.Container.Adopt.{AdoptArgs, adopt_rejects, adopted_container}
use mathlib.Core.Option.{some-injective}

-- Every string lies in its array with its NUL, the name is one that the check accepts, and the
-- CPU limit is a percentage.
pub record FitsRecord (c : Container) : Type 0 where
  pub named : name_valid (some c.name) ≡ true
  pub id : length c.id < id_max
  pub cpu : c.cpu_percent ≤ 100
  pub cgroup_path : length c.cgroup_path < path_max
  pub db_engine : length c.db_engine < path_max
  pub ns_hostname : length c.ns_hostname < name_max

pub record WellFormed (r : Registry) : Type 0 where
  pub size : length r.slots ≡ max_containers
  pub unique : (n : Str) → count_if (holds n) r.slots ≤ 1
  pub fits : All (Has FitsRecord) r.slots

-- A written record has the name of the old one, or the slot was free and no slot had the name.
unique-set :
    (slots : List Slot) (name : Option Str) (i : ℕ) (s : Slot)
    → claim_slot slots name ≡ some i
    → s.in_use ≡ true
    → some s.c.name ≡ name
    → ((n : Str) → count_if (holds n) slots ≤ 1)
    → (n : Str) → count_if (holds n) (set slots i s) ≤ 1
unfolding free_slot find_slot
unique-set slots name i s h used named u n = elim (claim_slot-cases slots name i h) [
  | inl f ↦
      let found = find_slot-Found slots name i f in
      let alike : holds n (slot_at slots i) ≡ holds n s =
        ground (arith, found.in_use, some-injective _ _ (found.named ∙ sym named)) in
      omega (arith, count_if-set_same (holds n) slots i s zero_slot alike, u n)
  | inr (f, g) ↦ elim (Bool-cases (holds n s)) [
    | inr e ↦
        let free = (find_index-passes is_free slots i zero_slot g).1 in
        let alike : holds n (slot_at slots i) ≡ holds n s = ground arith in
        omega (arith, count_if-set_same (holds n) slots i s zero_slot alike, u n)
    | inl e ↦
        let new : find_slot slots (some n) ≡ none =
          subst (λ m. find_slot slots m ≡ none) {y = some n} (ground (arith, str_eq_iff s.c.name n))
            f in
        omega (arith, count_if-set_le (holds n) slots i s, count_if-none (holds n) slots new)
  ]
]

copied-lt : (cap : ℕ) (s : Str) → 0 < cap → length (copy_into cap s) < cap
copied-lt cap s h = omega (arith, length-take-le (cap - 1) s)

with_namespaces-FitsRecord :
    (n : Option NamespaceConfig) (c : Container) → FitsRecord c → FitsRecord (with_namespaces n c)
with_namespaces-FitsRecord none c f = f
with_namespaces-FitsRecord (some n) c f = record {
  named = f.named;
  id = f.id;
  cpu = f.cpu;
  cgroup_path = f.cgroup_path;
  db_engine = f.db_engine;
  ns_hostname = copied-lt name_max (or_empty n.hostname) (omega arith);
}

copied_name :
    (name : Option Str)
    → name_valid name ≡ true
    → name_valid (some (copy_into name_max (or_empty name))) ≡ true
copied_name name h = subst (λ nm. name_valid nm ≡ true) (sym (name_valid-copied name h)) h

create_accepts :
    (a : CreateArgs) → create_rejects a ≡ false → (name_valid a.name ≡ true) × (a.cpu_percent ≤ 100)
unfolding create_rejects
create_accepts a h = ground arith

adopt_accepts :
    (a : AdoptArgs) → adopt_rejects a ≡ false → (name_valid a.name ≡ true) × (a.cpu_percent ≤ 100)
unfolding adopt_rejects
adopt_accepts a h = ground arith

created-FitsRecord :
    (a : CreateArgs) (path : Str) (n : ℕ) (now : ℤ)
    → create_rejects a ≡ false
    → FitsRecord (new_container a path n now)
unfolding new_container
created-FitsRecord a path n now h = with_namespaces-FitsRecord a.namespaces _ (record {
  named = copied_name a.name (create_accepts a h).0;
  id = copied-lt id_max (codes "nx-" ++ show_ulong6 n) (omega arith);
  cpu = (create_accepts a h).1;
  cgroup_path = copied-lt path_max path (omega arith);
  db_engine = copied-lt path_max (or_empty a.db_engine) (omega arith);
  ns_hostname = omega arith;
})

adopted-FitsRecord :
    (a : AdoptArgs) (state : State) (now : ℤ)
    → adopt_rejects a ≡ false
    → FitsRecord (adopted_container a state now)
unfolding adopted_container
adopted-FitsRecord a state now h = record {
  named = copied_name a.name (adopt_accepts a h).0;
  id = copied-lt id_max (or_empty a.id) (omega arith);
  cpu = (adopt_accepts a h).1;
  cgroup_path = copied-lt path_max (or_empty a.cgroup_path) (omega arith);
  db_engine = copied-lt path_max (or_empty a.db_engine) (omega arith);
  ns_hostname = omega arith;
}

-- The start, stop and delete of a record change its pid and its state alone.
set-FitsRecord :
    (old new : Container) (pid : ℤ) (state : State)
    → new ≡ record old { pid = pid; state = state }
    → FitsRecord old
    → FitsRecord new
set-FitsRecord old new pid state e f = rw e (record {
  named = f.named;
  id = f.id;
  cpu = f.cpu;
  cgroup_path = f.cgroup_path;
  db_engine = f.db_engine;
  ns_hostname = f.ns_hostname;
})

Update-FitsRecord :
    (c : Call) (done : Bool) (r : Registry) (old new : Container)
    → All (Has FitsRecord) r.slots
    → Update r old new done c
    → FitsRecord new
Update-FitsRecord (create a) done r old new f (created path n now ok _ e _) =
    rw e (created-FitsRecord a path n now ok)
Update-FitsRecord (adopt a) done r old new f (adopted state now ok _ e _) =
    rw e (adopted-FitsRecord a state now ok)
Update-FitsRecord (start n) done r old new f (started _ got _ _ e _) =
    set-FitsRecord old new _ _ e (container_get-Has FitsRecord r n old f got)
Update-FitsRecord (start n) done r old new f (start_failed got _ e _) =
    set-FitsRecord old new _ _ e (container_get-Has FitsRecord r n old f got)
Update-FitsRecord (stop n) done r old new f (stopped got _ e _) =
    set-FitsRecord old new _ _ e (container_get-Has FitsRecord r n old f got)
Update-FitsRecord (delete n) done r old new f (deleted got _ e _) =
    set-FitsRecord old new _ _ e (container_get-Has FitsRecord r n old f got)
Update-FitsRecord (delete n) done r old new f (delete_failed got _ e _) =
    set-FitsRecord old new _ _ e (container_get-Has FitsRecord r n old f got)

initial-WellFormed : WellFormed initial
unfolding initial
initial-WellFormed = record {
  size = length-replicate 64 zero_slot;
  unique = λ n. rw (count_if-replicate (holds n) 64 zero_slot refl) (omega arith);
  fits = All-replicate (Has FitsRecord) 64 zero_slot (λ e. cc);
}

module _ {F : Type 0} (H : Host F) where
  open H use {World}

  -- Every call keeps the registry well formed.
  pub perform-WellFormed :
      (c : Call) (r : Registry) (w : World) → WellFormed r → WellFormed (perform H c r w).1
  perform-WellFormed c r w v = elim (perform-Touches H c r w) [
    | same _ e ↦ record { size = rw e v.size; unique = rw e v.unique; fits = fits }
    | wrote i s h used named e _ ↦ record {
      size = rw e (length-set r.slots i s ∙ v.size);
      unique = rw e (unique-set r.slots (subject c) i s h used named v.unique);
      fits = fits;
    }
  ]
    where
      fits : All (Has FitsRecord) (perform H c r w).1.slots
      fits =
          perform-Has FitsRecord H c r w
            (λ done old new u. Update-FitsRecord c done r old new v.fits u) v.fits

  run-WellFormed :
      (cs : List Call) (r : Registry) (w : World) → WellFormed r → WellFormed (run H cs r w).0
  unfolding run
  run-WellFormed [] r w v = v
  run-WellFormed (c ∷ cs) r w v = run-WellFormed cs _ _ (perform-WellFormed c r w v)

  -- After any history of calls from the empty registry there are 64 slots, each name is held by one
  -- slot at most, and each used slot has a valid name, a CPU limit of 100 at most and strings that
  -- fit their arrays.
  pub run-initial-WellFormed : (cs : List Call) (w : World) → WellFormed (run H cs initial w).0
  run-initial-WellFormed cs w = run-WellFormed cs initial w initial-WellFormed
