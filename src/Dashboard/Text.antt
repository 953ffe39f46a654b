-- ===== src/Dashboard/Text.antt =====
-- `nexus_dashboard_render_text`: the calls of `sb_line` in their order, as a list of their texts.
use nexus_db.Prelude.{
  ℕ, zero, suc, ◌++◌, Option, none, some, List, [], ◌∷◌, Str, codes, if◌then◌else◌,
}
use nexus_db.Prelude.Numerals.{show_ulong}
use nexus_db.Rc.{Rc}
use nexus_db.Double.{Double}
use nexus_db.Bridge.Policy.Names.{adapt_action_str, adapt_reason_str}
use nexus_db.Dashboard.Metrics.{DashboardMetrics, EngineMetrics}
use nexus_db.Dashboard.Format.{format_bytes, format_hit_ratio, format_latency_ms}
use nexus_db.Dashboard.Writer.{sb_lines, sb_start}

abbrev pub unavailable : Str
unavailable = codes "unavailable"

-- A line with a label and a value.
abbrev pub labelled : Str → Str → Str
labelled label value = label ++ (value ++ codes "\n")

-- What the array of a helper holds, or UNAVAILABLE where it returned a number below 0.
abbrev pub or_unavailable : Option (ℕ × Str) → Str
or_unavailable none = unavailable
or_unavailable (some (_, text)) = text

module _ (D : Double) where
  open D use {F, lit, mul, show}

  abbrev pub put_bytes : ℕ → Str
  put_bytes bytes = or_unavailable (format_bytes D bytes (some 48))

  -- `%.1f%%`
  abbrev pub percent_text : F → Str
  percent_text x = show 1 x ++ codes "%"

  unfoldable pub resource_lines : DashboardMetrics F → List Str
  resource_lines m =
      if m.has_resource
      then codes "Memory used:      "
        ∷ put_bytes m.resource.memory_current
        ∷ codes "\nMemory limit:     "
        ∷ (if m.resource.has_limit then put_bytes m.resource.memory_max else codes "unlimited")
        ∷ labelled (codes "\nMemory pressure:  ")
            (percent_text (mul m.resource.memory_pressure (lit 1000 1)))
        ∷ []
      else labelled (codes "Memory used:      ") unavailable
        ∷ labelled (codes "Memory limit:     ") unavailable
        ∷ labelled (codes "Memory pressure:  ") unavailable
        ∷ []

  unfoldable pub cpu_lines : DashboardMetrics F → List Str
  cpu_lines m =
      labelled (codes "CPU:              ")
        (if m.has_cpu_percent then percent_text m.cpu_percent else unavailable)
      ∷ []

  unfoldable pub pool_lines : EngineMetrics F → List Str
  pool_lines e =
      if e.has_pool
      then labelled (codes "Buffer target:    ")
          (show_ulong e.pool_target_frames ++ codes " frames")
        ∷ labelled (codes "Buffer actual:    ") (show_ulong e.pool_actual_frames ++ codes " frames")
        ∷ labelled (codes "Resident frames:  ") (show_ulong e.pool_resident_frames)
        ∷ labelled (codes "Pinned frames:    ") (show_ulong e.pool_pinned_frames)
        ∷ []
      else labelled (codes "Buffer target:    ") unavailable
        ∷ labelled (codes "Buffer actual:    ") unavailable
        ∷ labelled (codes "Resident frames:  ") unavailable
        ∷ labelled (codes "Pinned frames:    ") unavailable
        ∷ []

  unfoldable pub cache_lines : EngineMetrics F → List Str
  cache_lines e =
      if e.has_cache_stats
      then labelled (codes "Cache hits:       ") (show_ulong e.cache_hits)
        ∷ labelled (codes "Cache misses:     ") (show_ulong e.cache_misses)
        ∷ labelled (codes "Cache hit ratio:  ")
            (or_unavailable (format_hit_ratio D e.cache_hits e.cache_misses (some 32)))
        ∷ []
      else labelled (codes "Cache hits:       ") unavailable
        ∷ labelled (codes "Cache misses:     ") unavailable
        ∷ labelled (codes "Cache hit ratio:  ") unavailable
        ∷ []

  unfoldable pub latency_lines : EngineMetrics F → List Str
  latency_lines e =
      labelled (codes "Query latency:    ") (
        if e.has_latency
        then or_unavailable (format_latency_ms D e.latency_ms (some 32))
        else unavailable)
      ∷ []

  unfoldable pub adaptation_lines : DashboardMetrics F → List Str
  adaptation_lines m =
      if m.has_adaptation
      then labelled (codes "Action:           ") (adapt_action_str m.adaptation.action)
        ∷ labelled (codes "Reason:           ") (adapt_reason_str m.adaptation.reason)
        ∷ labelled (codes "Target frames:    ") (show_ulong m.adaptation.target_frames)
        ∷ labelled (codes "Pressure:         ")
            (percent_text (mul m.adaptation.pressure (lit 1000 1)))
        ∷ []
      else labelled (codes "Action:           ") unavailable
        ∷ labelled (codes "Reason:           ") unavailable
        ∷ labelled (codes "Target frames:    ") unavailable
        ∷ labelled (codes "Pressure:         ") unavailable
        ∷ []

  unfoldable pub dashboard_lines : DashboardMetrics F → List Str
  dashboard_lines m =
      (codes "NexusDB Dashboard\n"
        ∷ codes "=================\n"
        ∷ codes "Resource\n--------\n"
        ∷ [])
      ++ resource_lines m
      ++ cpu_lines m
      ++ (codes "Database Engine\n---------------\n" ∷ [])
      ++ pool_lines m.engine
      ++ cache_lines m.engine
      ++ latency_lines m.engine
      ++ (codes "Adaptation\n----------\n" ∷ [])
      ++ adaptation_lines m

  -- For `metrics` that is not NULL and an array of `len` bytes, `none` for NULL: the result code
  -- and what the array holds, `none` where it is left alone.
  unfoldable pub dashboard_render_text : DashboardMetrics F → Option ℕ → Rc × Option Str
  dashboard_render_text m none = (Rc.invalid, none)
  dashboard_render_text m (some zero) = (Rc.invalid, none)
  dashboard_render_text m (some (suc n)) =
      let sb = sb_lines (sb_start (suc n)) (dashboard_lines m) in
      (if sb.overflow then Rc.process else Rc.ok, some sb.text)
