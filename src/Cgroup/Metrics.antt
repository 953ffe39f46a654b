-- ===== src/Cgroup/Metrics.antt =====
-- `cgroup_read_metrics`.
use nexus_db.Prelude.{
  ℕ, zero, suc, ltb, if◌then◌else◌, Bool, true, false, ◌||◌, Option, none, some, [], ◌∷◌, Str,
  codes, str_eq, length,
}
use nexus_db.Prelude.Scan.{Scanned, strtoul, scan_word}
use nexus_db.Rc.{Rc}
use nexus_db.Double.{Double}
use nexus_db.Os.{Os}
use nexus_db.Container.Types.{CgroupMetrics}
use nexus_db.Cgroup.{is_blank, text_of, build_child_path}

-- `*end != '\0'`
abbrev pub has_rest : Str → Bool
has_rest [] = false
has_rest (c ∷ s) = true

-- The number that `fscanf(f, "%lu", &cur)` reads from a file, if it reads one.
abbrev pub scanned_value : Option (Scanned ℕ) → Option ℕ
scanned_value none = none
scanned_value (some scanned) = some scanned.value

unfoldable pub current_of : Option Str → Option ℕ
current_of none = none
current_of (some text) = scanned_value (strtoul text)

-- `errno != 0 || end == buf || *end != '\0'` refuses the number.
abbrev pub whole_value : Option (Scanned ℕ) → Option ℕ
whole_value none = none
whole_value (some v) = if v.out_of_range || has_rest v.rest then none else some v.value

-- The limit that memory.max holds: 0 for "max", `none` where the file is missing or corrupt.
abbrev pub limit_of_word : Option (Str × Str) → Option ℕ
limit_of_word none = none
limit_of_word (some (buf, _)) =
    if str_eq buf (codes "max") then some 0 else whole_value (strtoul buf)

unfoldable pub limit_of : Option Str → Option ℕ
limit_of none = none
limit_of (some text) = limit_of_word (scan_word 31 text)

-- The loop over cpu.stat, `none` where the fuel runs out before it ends. Each round reads a word at
-- least, so one round more than the text has characters is enough.
unfoldable pub usage_loop : ℕ → Str → Option ℕ
usage_loop zero text = none
usage_loop (suc fuel) text = elim (scan_word 63 text) [
  | none ↦ some 0
  | some word ↦ elim (strtoul word.1) [
    | none ↦ some 0
    | some val ↦
        let rest = usage_loop fuel val.rest in
        if str_eq word.0 (codes "usage_usec") then some val.value else rest
  ]
]

abbrev or_zero : Option ℕ → ℕ
or_zero none = 0
or_zero (some n) = n

unfoldable pub usage_of : Option Str → ℕ
usage_of none = 0
usage_of (some text) = or_zero (usage_loop (suc (length text)) text)

module _ (D : Double) (os : Os) where
  -- `memset(metrics, 0, sizeof(*metrics))`
  abbrev pub no_metrics : CgroupMetrics D.F
  no_metrics = record {
    memory_current = 0;
    memory_max = 0;
    cpu_usage_usec = 0;
    memory_pressure = D.lit 0 1;
  }

  abbrev pub pressure_of : ℕ → ℕ → D.F
  pressure_of current limit =
      if ltb 0 limit then D.div (D.of_ulong current) (D.of_ulong limit) else D.lit 0 1

  -- The result code and what `*metrics` holds, by what the files gave.
  unfoldable pub metrics_of : Option ℕ → Option ℕ → ℕ → Rc × CgroupMetrics D.F
  metrics_of none limit usage = (Rc.process, no_metrics)
  metrics_of (some current) none usage =
      (Rc.process, record no_metrics { memory_current = current })
  metrics_of (some current) (some limit) usage = (
    Rc.ok,
    record {
      memory_current = current;
      memory_max = limit;
      cpu_usage_usec = usage;
      memory_pressure = pressure_of current limit;
    },
  )

  -- For `metrics` that is not NULL; `before` is what it holds at the call.
  unfoldable pub cgroup_read_metrics :
      Option Str → CgroupMetrics D.F → os.World → Rc × CgroupMetrics D.F
  cgroup_read_metrics cgroup_path before w =
      let file : Str → Option Str =
        λ name. os.read (build_child_path (text_of cgroup_path) name) w in
      if is_blank cgroup_path
      then (Rc.invalid, before)
      else metrics_of (current_of (file (codes "memory.current")))
          (limit_of (file (codes "memory.max"))) (usage_of (file (codes "cpu.stat")))
