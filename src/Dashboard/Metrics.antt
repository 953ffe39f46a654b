-- ===== src/Dashboard/Metrics.antt =====
-- The records of include/dashboard/metrics.h and `nexus_dashboard_collect`.
use nexus_db.Prelude.{ℕ, Bool, true, false, Option, none, some, if◌then◌else◌}
use nexus_db.Rc.{Rc, is_ok}
use nexus_db.Double.{Double}
use nexus_db.Bridge.Snapshot.{Snapshot}
use nexus_db.Bridge.Policy.{Decision, Action, Reason}

pub record EngineMetrics (F : Type 0) : Type 0 where
  pub has_pool : Bool
  pub pool_target_frames : ℕ
  pub pool_actual_frames : ℕ
  pub pool_resident_frames : ℕ
  pub pool_pinned_frames : ℕ
  pub has_cache_stats : Bool
  pub cache_hits : ℕ
  pub cache_misses : ℕ
  pub has_latency : Bool
  pub latency_ms : F

pub record DashboardInputs (F : Type 0) : Type 0 where
  pub resource : Option (Snapshot F)
  pub has_cpu_percent : Bool
  pub cpu_percent : F
  pub adaptation : Option (Decision F)

pub record DashboardMetrics (F : Type 0) : Type 0 where
  pub has_resource : Bool
  pub resource : Snapshot F
  pub has_cpu_percent : Bool
  pub cpu_percent : F
  pub has_adaptation : Bool
  pub adaptation : Decision F
  pub engine : EngineMetrics F

-- `nexus_engine_metrics_fn`: what it returns, what it leaves in `out`, and the engine behind
-- `context`.
abbrev pub Provider : Type 0 → Type 0 → Type 0
Provider F E = E → EngineMetrics F → Rc × EngineMetrics F × E

module _ (D : Double) where
  open D use {F, lit}

  abbrev pub zero_snapshot : Snapshot F
  zero_snapshot = record {
    valid = false;
    has_memory = false;
    has_limit = false;
    has_cpu = false;
    memory_current = 0;
    memory_max = 0;
    cpu_usage_usec = 0;
    memory_pressure = lit 0 1;
  }

  abbrev pub zero_engine : EngineMetrics F
  zero_engine = record {
    has_pool = false;
    pool_target_frames = 0;
    pool_actual_frames = 0;
    pool_resident_frames = 0;
    pool_pinned_frames = 0;
    has_cache_stats = false;
    cache_hits = 0;
    cache_misses = 0;
    has_latency = false;
    latency_ms = lit 0 1;
  }

  -- `nexus_dashboard_metrics_init`: the first enumerators are 0.
  abbrev pub dashboard_metrics_init : DashboardMetrics F
  dashboard_metrics_init = record {
    has_resource = false;
    resource = zero_snapshot;
    has_cpu_percent = false;
    cpu_percent = lit 0 1;
    has_adaptation = false;
    adaptation = record {
      action = Action.hold;
      target_frames = 0;
      pressure = lit 0 1;
      reason = Reason.ok;
    };
    engine = zero_engine;
  }

  abbrev pub collect_resource : Option (Snapshot F) → DashboardMetrics F → DashboardMetrics F
  collect_resource none out = out
  collect_resource (some s) out =
      if s.valid then record out { resource = s; has_resource = true } else out

  abbrev pub collect_adaptation : Option (Decision F) → DashboardMetrics F → DashboardMetrics F
  collect_adaptation none out = out
  collect_adaptation (some d) out = record out { adaptation = d; has_adaptation = true }

  unfoldable pub collect_inputs :
      Option (DashboardInputs F) → DashboardMetrics F → DashboardMetrics F
  collect_inputs none out = out
  collect_inputs (some inputs) out =
      collect_adaptation inputs.adaptation (record (collect_resource inputs.resource out) {
        has_cpu_percent = inputs.has_cpu_percent;
        cpu_percent = inputs.cpu_percent;
      })

  unfoldable pub collect_engine :
      {E : Type 0} → Option (Provider F E) → E → DashboardMetrics F → DashboardMetrics F × E
  collect_engine none context out = (out, context)
  collect_engine (some provider) context out =
      let (rc, em, context') = provider context zero_engine in
      if is_ok rc then (record out { engine = em }, context') else (out, context')

  -- `nexus_dashboard_collect`, for `out` that is not NULL.
  unfoldable pub dashboard_collect :
      {E : Type 0}
      → Option (DashboardInputs F)
      → Option (Provider F E)
      → E
      → Rc × DashboardMetrics F × E
  dashboard_collect inputs provider context =
      let (out, context') =
        collect_engine provider context (collect_inputs inputs dashboard_metrics_init) in
      (Rc.ok, out, context')
