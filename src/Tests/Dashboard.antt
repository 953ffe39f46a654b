-- ===== src/Tests/Dashboard.antt =====
-- The dashboard at concrete frames, and its theorems there.
use nexus_db.Prelude.{ℕ, ◌<◌, ◌≤◌, ◌≡◌, refl, ◌⊎◌, true, false, Option, none, some, length, take}
use nexus_db.Rc.{Rc}
use nexus_db.Dashboard.Metrics.{
  DashboardInputs, DashboardMetrics, EngineMetrics, dashboard_metrics_init, zero_engine,
  dashboard_collect, collect_engine, collect_inputs,
}
use nexus_db.Dashboard.Text.{dashboard_render_text, dashboard_lines}
use nexus_db.Dashboard.Rendered.{render_text-Bounded, joined}
use nexus_db.Tests.Fixed.{fixed}

-- A reading that is not valid, and a CPU rate.
abbrev inputs : Option (DashboardInputs ℕ)
inputs = some (record {
  resource = some (record {
    valid = false;
    has_memory = true;
    has_limit = true;
    has_cpu = false;
    memory_current = 7;
    memory_max = 10;
    cpu_usage_usec = 0;
    memory_pressure = 7000;
  });
  has_cpu_percent = true;
  cpu_percent = 125000;
  adaptation = none;
})

-- An engine that counts how often it is asked, and answers.
abbrev engine : ℕ → EngineMetrics ℕ → Rc × EngineMetrics ℕ × ℕ
engine n em = (Rc.ok, record em { has_pool = true; pool_actual_frames = 64 }, 1)

abbrev frame : DashboardMetrics ℕ
frame = record (dashboard_metrics_init fixed) {
  has_cpu_percent = true;
  cpu_percent = 125000;
  engine = record (zero_engine fixed) { has_pool = true; pool_actual_frames = 64 };
}

collected : dashboard_collect fixed inputs (some engine) 0 ≡ (Rc.ok, frame, 1)
unfolding dashboard_collect collect_engine collect_inputs
collected = refl

render_text-Bounded_example :
    (let (rc, text) = dashboard_render_text fixed frame (some 40) in
      let whole = joined (dashboard_lines fixed frame) in
      (text ≡ some (take 39 whole))
      × (((rc ≡ Rc.ok) × (length whole ≤ 39) × (text ≡ some whole))
          ⊎ ((rc ≡ Rc.process) × (39 < length whole))))
render_text-Bounded_example = render_text-Bounded fixed frame 39
