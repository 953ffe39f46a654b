-- ===== src/Bridge/Memory.antt =====
-- src/bridge/memory_bridge.c over `container_metrics` of src/container/container.c.
use nexus_db.Prelude.{
  ℕ, zero, suc, ◌++◌, not, Option, none, some, Str, codes, length, leb, ltb, ◌==◌, if◌then◌else◌,
  copy_into,
}
use nexus_db.Prelude.Numerals.{show_ulong}
use nexus_db.Rc.{Rc}
use nexus_db.Double.{Double}
use nexus_db.Os.{Os}
use nexus_db.Container.Types.{CgroupMetrics, is_deleted}
use nexus_db.Container.Registry.{Registry, name_valid, find_slot, slot_at}
use nexus_db.Cgroup.Metrics.{cgroup_read_metrics}

-- `memory_bridge_state_t`
pub data PressureState : Type 0 where
  bridge_invalid bridge_low bridge_normal bridge_high : PressureState

module _ (D : Double) (os : Os) where
  open D use {F, lt, lit, show}

  -- `container_metrics`, for `metrics` that is not NULL.
  unfoldable pub container_metrics :
      Registry → Option Str → CgroupMetrics F → os.World → Rc × CgroupMetrics F
  container_metrics r name metrics w =
      if not (name_valid name) then (Rc.invalid, metrics) else elim (find_slot r.slots name) [
        | none ↦ (Rc.not_found, metrics)
        | some i ↦
            let c = (slot_at r.slots i).c in
            if is_deleted c.state
            then (Rc.illegal_state, metrics)
            else cgroup_read_metrics D os (some c.cgroup_path) metrics w
      ]

  -- `memory_bridge_query`: `out` is what `*out` holds before and after.
  unfoldable pub memory_bridge_query :
      Registry → Option Str → Option (CgroupMetrics F) → os.World → Rc × Option (CgroupMetrics F)
  memory_bridge_query r name none w = (Rc.invalid, none)
  memory_bridge_query r name (some out) w =
      let (rc, out') = container_metrics r name out w in (rc, some out')

  -- The line of `memory_bridge_format`.
  unfoldable pub memory_line : CgroupMetrics F → Str
  memory_line metrics =
      let limit =
        if ltb 0 metrics.memory_max
        then show_ulong metrics.memory_max ++ codes " bytes"
        else codes "unlimited" in
      codes "Memory current: "
      ++ show_ulong metrics.memory_current
      ++ codes " bytes | max: "
      ++ limit
      ++ codes " | pressure: "
      ++ show 4 metrics.memory_pressure

  -- `memory_bridge_format` into an array of `buflen` bytes, `none` for NULL: the code and what the
  -- array holds, `none` where it is left alone.
  unfoldable pub memory_bridge_format : Option (CgroupMetrics F) → Option ℕ → Rc × Option Str
  memory_bridge_format none buflen = (Rc.invalid, none)
  memory_bridge_format (some metrics) none = (Rc.invalid, none)
  memory_bridge_format (some metrics) (some zero) = (Rc.invalid, none)
  memory_bridge_format (some metrics) (some (suc n)) =
      let line = memory_line metrics in
      (if leb (suc n) (length line) then Rc.invalid else Rc.ok, some (copy_into (suc n) line))

  -- `memory_bridge_pressure_state`
  unfoldable pub memory_bridge_pressure_state : Option (CgroupMetrics F) → PressureState
  memory_bridge_pressure_state none = PressureState.bridge_invalid
  memory_bridge_pressure_state (some m) =
      if m.memory_max == 0
      then PressureState.bridge_normal
      else if lt (lit 85 2) m.memory_pressure
      then PressureState.bridge_high
      else if lt m.memory_pressure (lit 60 2)
      then PressureState.bridge_low
      else PressureState.bridge_normal
