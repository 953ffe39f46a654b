-- ===== src/Bridge/Monitor.antt =====
-- src/bridge/resource_monitor.c. Its `child_path` is the `build_child_path` of cgroup.c.
pub mod Pipeline
pub mod Agree
use nexus_db.Prelude.{
  ℕ, ◌-◌, ◌+◌, Bool, true, false, not, ◌&&◌, ◌||◌, Option, none, some, Str, codes, is_some, ltb,
  if◌then◌else◌, ℤ, pos, negsuc, is_pos,
}
use nexus_db.Rc.{Rc, is_ok}
use nexus_db.Double.{Double}
use nexus_db.Os.{Os}
use nexus_db.Container.Types.{State, Container, CgroupMetrics, is_deleted}
use nexus_db.Container.Registry.{Registry, container_get}
use nexus_db.Cgroup.{is_blank, text_of, build_child_path}
use nexus_db.Cgroup.Metrics.{no_metrics, cgroup_read_metrics}
use nexus_db.Bridge.Snapshot.{Snapshot}

-- `nexus_bridge_strerror`, which leaves NEXUS_ERR_UNSUPPORTED to its default.
abbrev pub bridge_strerror : Rc → Str
bridge_strerror Rc.ok = codes "ok"
bridge_strerror Rc.invalid = codes "invalid argument"
bridge_strerror Rc.not_found = codes "container not found"
bridge_strerror Rc.exists = codes "container already exists"
bridge_strerror Rc.illegal_state = codes "illegal state for this operation"
bridge_strerror Rc.nomem = codes "container registry full"
bridge_strerror Rc.process = codes "resource metrics unavailable"
bridge_strerror Rc.unsupported = codes "unknown error"

module _ (D : Double) (os : Os) where
  open os use {World, read}

  unfoldable pub cpu_stat_present : Str → World → Bool
  cpu_stat_present dir w = is_some (read (build_child_path dir (codes "cpu.stat")) w)

  -- `memset(out, 0, sizeof(*out))`
  abbrev pub no_snapshot : Snapshot D.F
  no_snapshot = record {
    valid = false;
    has_memory = false;
    has_limit = false;
    has_cpu = false;
    memory_current = 0;
    memory_max = 0;
    cpu_usage_usec = 0;
    memory_pressure = D.lit 0 1;
  }

  abbrev pub snapshot_of : CgroupMetrics D.F → Bool → Snapshot D.F
  snapshot_of m has_cpu = record {
    valid = true;
    has_memory = true;
    has_limit = ltb 0 m.memory_max;
    has_cpu = has_cpu;
    memory_current = m.memory_current;
    memory_max = m.memory_max;
    cpu_usage_usec = if has_cpu then m.cpu_usage_usec else 0;
    memory_pressure = m.memory_pressure;
  }

  -- `nexus_bridge_read_cgroup`, for `out` that is not NULL: the code and what `*out` holds.
  unfoldable pub bridge_read_cgroup : Option Str → Snapshot D.F → World → Rc × Snapshot D.F
  bridge_read_cgroup cgroup_dir out w =
      let (rc, m) = cgroup_read_metrics D os cgroup_dir (no_metrics D os) w in
      if is_blank cgroup_dir
      then (Rc.invalid, out)
      else if not (is_ok rc)
      then (rc, no_snapshot)
      else (Rc.ok, snapshot_of m (cpu_stat_present (text_of cgroup_dir) w))

  -- `nexus_bridge_read_container`, for `out` that is not NULL.
  unfoldable pub bridge_read_container :
      Registry → Option Str → Snapshot D.F → World → Rc × Snapshot D.F
  bridge_read_container r container_name out w =
      if is_blank container_name then (Rc.invalid, out) else elim (container_get r container_name) [
        | none ↦ (Rc.not_found, out)
        | some c ↦
            if is_deleted c.state
            then (Rc.illegal_state, out)
            else bridge_read_cgroup (some c.cgroup_path) out w
      ]

  abbrev ms_of : ℤ → ℕ
  ms_of (pos n) = n
  ms_of (negsuc n) = 0

  abbrev pub is_usable : Snapshot D.F → Bool
  is_usable s = s.valid && s.has_cpu

  -- `nexus_bridge_cpu_percent`, `none` for the -1.0 of a rate that is not known.
  unfoldable pub bridge_cpu_percent : Option (Snapshot D.F) → Option (Snapshot D.F) → ℤ → Option D.F
  bridge_cpu_percent none cur elapsed_ms = none
  bridge_cpu_percent (some prev) none elapsed_ms = none
  bridge_cpu_percent (some prev) (some cur) elapsed_ms =
      if not (is_usable prev) || not (is_usable cur)
      then none
      else if not (is_pos elapsed_ms)
      then none
      else if ltb cur.cpu_usage_usec prev.cpu_usage_usec
      then none
      else (let delta_usec = cur.cpu_usage_usec - prev.cpu_usage_usec in
          let elapsed_usec = D.mul (D.of_ulong (ms_of elapsed_ms)) (D.lit 10000 1) in
          some (D.mul (D.div (D.of_ulong delta_usec) elapsed_usec) (D.lit 1000 1)))
