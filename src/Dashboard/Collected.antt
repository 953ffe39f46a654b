-- ===== src/Dashboard/Collected.antt =====
-- The dashboard shows nothing that it was not given.
use nexus_db.Prelude.{◌≡◌, ◌⊎◌, true, false, Option, none, some}
use nexus_db.Rc.{Rc}
use nexus_db.Double.{Double}
use nexus_db.Bridge.Snapshot.{Snapshot}
use nexus_db.Bridge.Policy.{Decision}
use nexus_db.Dashboard.Metrics.{
  DashboardInputs, DashboardMetrics, Provider, zero_engine, dashboard_metrics_init,
  collect_resource, collect_adaptation,
}

module _ (D : Double) where
  open D use {F}

  -- A memory reading is shown only if it was given and valid.
  abbrev pub ResourceGiven : Option (DashboardInputs F) → DashboardMetrics F → Type 0
  ResourceGiven inputs out =
      (out.has_resource ≡ false)
      ⊎ ((i : DashboardInputs F) × (inputs ≡ some i)
          × (i.resource ≡ some out.resource)
          × (out.resource.valid ≡ true))

  abbrev pub AdaptationGiven : Option (DashboardInputs F) → DashboardMetrics F → Type 0
  AdaptationGiven inputs out =
      (out.has_adaptation ≡ false)
      ⊎ ((i : DashboardInputs F) × (inputs ≡ some i) × (i.adaptation ≡ some out.adaptation))

  -- The CPU share is the caller's, and it is flagged as the caller flags it, or not at all.
  abbrev pub CpuGiven : Option (DashboardInputs F) → DashboardMetrics F → Type 0
  CpuGiven inputs out =
      ((inputs ≡ none) × (out.has_cpu_percent ≡ false))
      ⊎ ((i : DashboardInputs F) × (inputs ≡ some i)
          × (out.has_cpu_percent ≡ i.has_cpu_percent)
          × (out.cpu_percent ≡ i.cpu_percent))

  -- The engine's numbers are all unavailable, or are what the provider reported with NEXUS_OK.
  abbrev pub EngineGiven :
      {E : Type 0} → Option (Provider F E) → E → DashboardMetrics F → E → Type 0
  EngineGiven {E = E} provider context out context' =
      (out.engine ≡ zero_engine D)
      ⊎ ((ask : Provider F E) × (provider ≡ some ask)
          × (ask context (zero_engine D) ≡ (Rc.ok, out.engine, context')))

  -- What is said of a frame before the engine is asked.
  abbrev Given : Option (DashboardInputs F) → DashboardMetrics F → Type 0
  Given inputs out =
      ResourceGiven inputs out
      × AdaptationGiven inputs out
      × CpuGiven inputs out
      × (out.engine ≡ zero_engine D)

  abbrev filled : DashboardInputs F → Option (Snapshot F) → Option (Decision F) → DashboardMetrics F
  filled i resource adaptation =
      collect_adaptation D adaptation
        (record (collect_resource D resource (dashboard_metrics_init D)) {
          has_cpu_percent = i.has_cpu_percent;
          cpu_percent = i.cpu_percent;
        })
