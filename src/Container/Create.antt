-- ===== src/Container/Create.antt =====
-- `container_create_ex` and `container_create`.
pub mod Rollback
use nexus_db.Prelude.{
  ℕ, ◌+◌, ◌%◌, ◌^◌, Bool, true, false, not, ◌||◌, Option, none, some, ◌++◌, ltb, if◌then◌else◌, Str,
  codes, copy_into, ℤ, minus_one,
}
use nexus_db.Prelude.Numerals.{show_ulong6}
use nexus_db.Rc.{Rc, is_ok}
use nexus_db.Namespace.{NamespaceConfig}
use nexus_db.Container.Types.{State, is_deleted, Container, name_max, id_max, path_max}
use nexus_db.Container.Host.{Host}
use nexus_db.Container.Registry.{
  zero_container, Registry, name_valid, find_slot, claim_slot, slot_at, write_slot, too_long,
  or_empty,
}

-- A configuration as `nexus_namespace_config_t *`, with NULL as `none`.
abbrev pub hostname_of : Option NamespaceConfig → Option Str
hostname_of none = none
hostname_of (some n) = n.hostname

-- A duplicate that is live.
unfoldable pub is_live_at : Registry → Option Str → Bool
is_live_at r name = elim (find_slot r.slots name) [
  | none ↦ false
  | some i ↦ not (is_deleted (slot_at r.slots i).c.state)
]

-- The `ns_*` fields of the new record.
abbrev pub with_namespaces : Option NamespaceConfig → Container → Container
with_namespaces none c = c
with_namespaces (some n) c = record c {
  ns_pid = n.isolate_pid;
  ns_mount = n.isolate_mount;
  ns_net = n.isolate_net;
  ns_uts = n.isolate_uts;
  ns_ipc = n.isolate_ipc;
  ns_hostname = copy_into name_max (or_empty n.hostname);
}

pub record CreateArgs : Type 0 where
  pub name : Option Str
  pub memory_bytes : ℕ
  pub cpu_percent : ℕ
  pub db_engine : Option Str
  pub namespaces : Option NamespaceConfig

-- The record that a slot is filled with: `id_number` is `g_next_id`, `now` is `time(NULL)`.
unfoldable pub new_container : CreateArgs → Str → ℕ → ℤ → Container
new_container a cgroup_path id_number now = with_namespaces a.namespaces (record zero_container {
  name = copy_into name_max (or_empty a.name);
  id = copy_into id_max (codes "nx-" ++ show_ulong6 id_number);
  state = State.created;
  pid = minus_one;
  memory_bytes = a.memory_bytes;
  cpu_percent = a.cpu_percent;
  cgroup_path = copy_into path_max cgroup_path;
  db_engine = copy_into path_max (or_empty a.db_engine);
  created_at = now;
})

-- The checks of `container_create_ex` that reject its arguments.
unfoldable pub create_rejects : CreateArgs → Bool
create_rejects a =
    not (name_valid a.name)
    || ltb 100 a.cpu_percent
    || too_long path_max a.db_engine
    || too_long name_max (hostname_of a.namespaces)

module _ {F : Type 0} (H : Host F) where
  open H use {World, cgroup_init, cgroup_create, cgroup_set_limits, cgroup_destroy, time}

  -- `cgroup_init`, `cgroup_create`, `cgroup_set_limits`, and `cgroup_destroy` where the limits
  -- are refused. The path is what `tmp_path` holds.
  unfoldable pub provision : Str → ℕ → ℕ → World → Rc × Str × World
  provision name memory_bytes cpu_percent w =
      let (_, w1) = cgroup_init none w in
      let (made, path, w2) = cgroup_create name path_max w1 in
      if not (is_ok made)
      then (made, path, w2)
      else (let (limited, w3) = cgroup_set_limits path memory_bytes cpu_percent w2 in
          if is_ok limited then (Rc.ok, path, w3) else (limited, path, (cgroup_destroy path w3).1))

  -- The part behind the choice of a slot `i`.
  unfoldable pub create_in : CreateArgs → ℕ → Registry → World → Rc × Registry × World
  create_in a i r w =
      let (rc, path, w') = provision (or_empty a.name) a.memory_bytes a.cpu_percent w in
      if not (is_ok rc) then (rc, r, w') else (
        Rc.ok,
        record (write_slot r i
            (record { in_use = true; c = new_container a path r.next_id (time w') })) {
              next_id = (r.next_id + 1) % 2 ^ 64;
            },
        w',
      )

  unfoldable pub container_create_ex : CreateArgs → Registry → World → Rc × Registry × World
  container_create_ex a r w =
      if create_rejects a
      then (Rc.invalid, r, w)
      else if is_live_at r a.name
      then (Rc.exists, r, w)
      else elim (claim_slot r.slots a.name) [ none ↦ (Rc.nomem, r, w) | some i ↦ create_in a i r w ]

  unfoldable pub container_create :
      Option Str → ℕ → ℕ → Option Str → Registry → World → Rc × Registry × World
  container_create name memory_bytes cpu_percent db_engine = container_create_ex (record {
    name = name;
    memory_bytes = memory_bytes;
    cpu_percent = cpu_percent;
    db_engine = db_engine;
    namespaces = none;
  })
