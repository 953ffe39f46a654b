-- ===== src/Bridge/Snapshot.antt =====
-- `nexus_resource_snapshot_t` of include/bridge/resource_monitor.h.
use nexus_db.Prelude.{ℕ, Bool}

pub record Snapshot (F : Type 0) : Type 0 where
  pub valid : Bool
  pub has_memory : Bool
  pub has_limit : Bool
  pub has_cpu : Bool
  pub memory_current : ℕ
  pub memory_max : ℕ
  pub cpu_usage_usec : ℕ
  pub memory_pressure : F
