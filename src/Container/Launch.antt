-- ===== src/Container/Launch.antt =====
-- `container_start` and its helpers, as compiled for Linux (without `_WIN32`).
pub mod Order
use nexus_db.Prelude.{
  ℕ, Bool, false, not, ◌&&◌, ◌||◌, Option, none, some, [], ◌∷◌, ◌++◌, leb, ◌==◌, if◌then◌else◌, Str,
  codes, length, ℤ, is_pos, is_minus_one, minus_one,
}
use nexus_db.Rc.{Rc, is_ok}
use nexus_db.Namespace.{NamespaceConfig, namespace_clone_flags}
use nexus_db.Container.Types.{State, is_created, is_stopped, Container, path_max}
use nexus_db.Container.Host.{ProcessExec, GateConfig, Host}
use nexus_db.Container.Registry.{Registry, with_slot, slot_at, write_container}

unfoldable pub container_ns_requested : Container → Bool
container_ns_requested c = c.ns_pid || c.ns_mount || c.ns_net || c.ns_uts || c.ns_ipc

unfoldable pub container_ns_config : Container → NamespaceConfig
container_ns_config c = record {
  isolate_pid = c.ns_pid;
  isolate_mount = c.ns_mount;
  isolate_net = c.ns_net;
  isolate_uts = c.ns_uts;
  isolate_ipc = c.ns_ipc;
  hostname = if length c.ns_hostname == 0 then none else some c.ns_hostname;
}

-- The gate configuration of `container_start`: `gcp`, with NULL as `none`.
unfoldable pub gate_config : Container → Option GateConfig
unfolding container_ns_requested container_ns_config namespace_clone_flags
gate_config c =
    if container_ns_requested c
    then some (record {
      clone_flags = namespace_clone_flags (some (container_ns_config c));
      child_arg = container_ns_config c;
    })
    else none

abbrev pub data_root_default : Str
data_root_default = codes "nexusdb_data"

-- $NEXUSDB_DATA_ROOT, or the default where it is unset or empty.
abbrev pub data_root : Option Str → Str
data_root none = data_root_default
data_root (some root) = if length root == 0 then data_root_default else root

-- `root_env` is the value of $NEXUSDB_DATA_ROOT; `none` is the result -1. The array of
-- `container_start` has the four places that are needed.
unfoldable pub workload_spec : Container → Option Str → Option ProcessExec
workload_spec c root_env =
    if length c.db_engine == 0
    then some
        (record { path = codes "sleep"; argv = codes "sleep" ∷ codes "3600" ∷ []; cwd = none })
    else (let data_dir = data_root root_env ++ (codes "/" ++ c.name) in
        if leb path_max (length data_dir)
        then none
        else some (record {
          path = c.db_engine;
          argv = c.db_engine ∷ codes "--data-dir" ∷ data_dir ∷ [];
          cwd = none;
        }))

module _ {F : Type 0} (H : Host F) where
  open H use {
    World, Gate, cgroup_attach, process_is_alive, process_spawn_gated, process_gate_release,
    process_gate_abort, getenv,
  }

  -- `cgroup_attach`, then `workload_release`, or `workload_kill` where the child was not attached.
  -- The result is whether the workload runs.
  unfoldable pub attach_and_release : Str → ℤ → Gate → World → Bool × World
  attach_and_release cgroup_path pid gate w =
      let (attached, w1) = cgroup_attach cgroup_path pid w in
      if not (is_ok attached)
      then (false, process_gate_abort gate w1)
      else (let (released, w2) = process_gate_release gate w1 in (is_pos released, w2))

  -- The part of `container_start` behind the specification of the workload.
  unfoldable pub launch : ℕ → ProcessExec → Registry → World → Rc × Registry × World
  launch i spec r w =
      let c = (slot_at r.slots i).c in
      let (pid, gate, w1) = process_spawn_gated spec (gate_config c) w in
      if not (is_pos pid)
      then (Rc.process, r, w1)
      else (let (runs, w2) = attach_and_release c.cgroup_path pid gate w1 in
          if runs
          then (Rc.ok, write_container r i (record c { pid = pid; state = State.running }), w2)
          else (Rc.process, write_container r i (record c { pid = minus_one }), w2))

  -- The part behind the lookup of the name.
  unfoldable pub start_slot : ℕ → Registry → World → Rc × Registry × World
  start_slot i r w =
      let c = (slot_at r.slots i).c in
      if not (is_created c.state) && not (is_stopped c.state)
      then (Rc.illegal_state, r, w)
      else if not (is_minus_one c.pid) && process_is_alive c.pid w
      then (Rc.illegal_state, r, w)
      else elim (workload_spec c (getenv (codes "NEXUSDB_DATA_ROOT") w)) [
        | none ↦ (Rc.invalid, r, w)
        | some spec ↦ launch i spec r w
      ]

  unfoldable pub container_start : Option Str → Registry → World → Rc × Registry × World
  container_start name r w = with_slot name r w (λ i. start_slot i r w)
