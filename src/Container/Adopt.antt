-- ===== src/Container/Adopt.antt =====
-- `container_adopt`: a record that was persisted is put back, and nothing outside is touched.
use nexus_db.Prelude.{
  ℕ, Bool, true, not, ◌||◌, Option, none, some, ltb, ◌==◌, if◌then◌else◌, Str, copy_into, is_some,
  ℤ, pos, negsuc,
}
use nexus_db.Rc.{Rc}
use nexus_db.Container.Types.{State, Container, name_max, id_max, path_max}
use nexus_db.Container.Registry.{
  zero_container, Registry, name_valid, claim_slot, write_slot, too_long, or_empty,
}

-- `(nexus_state_t)state`, for the integers that pass the check of the range.
abbrev pub state_of_int : ℤ → Option State
state_of_int (pos n) =
    if n == 0
    then some State.created
    else if n == 1
    then some State.running
    else if n == 2
    then some State.stopped
    else if n == 3
    then some State.deleted
    else none
state_of_int (negsuc n) = none

pub record AdoptArgs : Type 0 where
  pub name : Option Str
  pub id : Option Str
  pub memory_bytes : ℕ
  pub cpu_percent : ℕ
  pub db_engine : Option Str
  pub cgroup_path : Option Str
  pub pid : ℤ
  pub state : ℤ

unfoldable pub adopt_rejects : AdoptArgs → Bool
adopt_rejects a =
    not (name_valid a.name)
    || ltb 100 a.cpu_percent
    || not (is_some (state_of_int a.state))
    || too_long id_max a.id
    || too_long path_max a.db_engine
    || too_long path_max a.cgroup_path

-- The record that a slot is filled with, in a state that `state_of_int` gave.
unfoldable pub adopted_container : AdoptArgs → State → ℤ → Container
adopted_container a state now = record zero_container {
  name = copy_into name_max (or_empty a.name);
  id = copy_into id_max (or_empty a.id);
  state = state;
  pid = a.pid;
  memory_bytes = a.memory_bytes;
  cpu_percent = a.cpu_percent;
  cgroup_path = copy_into path_max (or_empty a.cgroup_path);
  db_engine = copy_into path_max (or_empty a.db_engine);
  created_at = now;
}

-- `now` is `time(NULL)`.
unfoldable pub container_adopt : AdoptArgs → ℤ → Registry → Rc × Registry
container_adopt a now r = if adopt_rejects a then (Rc.invalid, r) else elim (state_of_int a.state) [
  | none ↦ (Rc.invalid, r)
  | some state ↦ elim (claim_slot r.slots a.name) [
    | none ↦ (Rc.nomem, r)
    | some i ↦ (Rc.ok, write_slot r i (record { in_use = true; c = adopted_container a state now }))
  ]
]
