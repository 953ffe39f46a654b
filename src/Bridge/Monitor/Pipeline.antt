-- ===== src/Bridge/Monitor/Pipeline.antt =====
-- From the cgroup's files to the decision: what `nexus_policy_evaluate` makes of a snapshot that
-- `nexus_bridge_read_container` filled.
use nexus_db.Prelude.{
  ℕ, ◌≡◌, ◌≢◌, refl, ◌⊎◌, inl, inr, true, false, Option, none, some, Str, codes, ltb, Bool-cases,
  Bool, ap, is_some, if◌then◌else◌, Option-cases,
}
use nexus_db.Rc.{Rc}
use nexus_db.Double.{Double}
use nexus_db.Os.{Os}
use nexus_db.Container.Types.{Container, is_deleted}
use nexus_db.Container.Registry.{Registry, container_get}
use nexus_db.Cgroup.{is_blank, build_child_path}
use nexus_db.Cgroup.Metrics.{
  current_of, limit_of, usage_of, metrics_of, pressure_of, cgroup_read_metrics,
}
use nexus_db.Bridge.Snapshot.{Snapshot}
use nexus_db.Bridge.Monitor.{
  cpu_stat_present, no_snapshot, bridge_read_cgroup, bridge_read_container,
}

module _ (D : Double) (os : Os) (w : os.World) where
  -- The snapshot holds what the files of this directory say.
  abbrev pub Measured : Str → Snapshot D.F → Type 0
  Measured dir s =
      let file : Str → Option Str = λ name. os.read (build_child_path dir name) w in
      (s.valid ≡ true)
      × (s.has_memory ≡ true)
      × (current_of (file (codes "memory.current")) ≡ some s.memory_current)
      × (limit_of (file (codes "memory.max")) ≡ some s.memory_max)
      × (s.has_limit ≡ ltb 0 s.memory_max)
      × (s.has_cpu ≡ is_some (file (codes "cpu.stat")))
      × (s.cpu_usage_usec
          ≡ (if is_some (file (codes "cpu.stat")) then usage_of (file (codes "cpu.stat")) else 0))
      × (s.memory_pressure ≡ pressure_of D os s.memory_current s.memory_max)

  metrics_of-cases :
      (current limit : Option ℕ) (usage : ℕ)
      → (let (rc, m) = metrics_of D os current limit usage in
          (rc ≡ Rc.process)
          ⊎ ((rc ≡ Rc.ok)
              × (current ≡ some m.memory_current)
              × (limit ≡ some m.memory_max)
              × (m.cpu_usage_usec ≡ usage)
              × (m.memory_pressure ≡ pressure_of D os m.memory_current m.memory_max)))
  unfolding metrics_of
  metrics_of-cases none limit usage = inl refl
  metrics_of-cases (some current) none usage = inl refl
  metrics_of-cases (some current) (some limit) usage = inr (refl, refl, refl, refl, refl)

  -- The outcomes of a reader: an error with the snapshot left alone or zeroed, or a reading.
  abbrev pub Outcome : Snapshot D.F → Rc × Snapshot D.F → Type 0 → Type 0
  Outcome out result Fine =
      ((result.0 ≢ Rc.ok) × ((result.1 ≡ out) ⊎ (result.1 ≡ no_snapshot D os)))
      ⊎ ((result.0 ≡ Rc.ok) × Fine)

  usage_shown : (b : Bool) (m n : ℕ) → m ≡ n → (if b then m else 0) ≡ (if b then n else 0)
  usage_shown b m n e = ap (λ k. if b then k else 0) e

  read_cgroup_cases :
      (dir : Str) (out : Snapshot D.F)
      → (let result = bridge_read_cgroup D os (some dir) out w in
          Outcome out result (Measured dir result.1))
  unfolding bridge_read_cgroup cgroup_read_metrics cpu_stat_present
  read_cgroup_cases dir out = elim (Bool-cases (is_blank (some dir))) [
    | inl k ↦ rw (k, bridge_read_cgroup) (inl ((λ h. cc), inl refl))
    | inr k ↦
        let file : Str → Option Str = λ name. os.read (build_child_path dir name) w in
        elim (metrics_of-cases (current_of (file (codes "memory.current")))
          (limit_of (file (codes "memory.max"))) (usage_of (file (codes "cpu.stat")))) [
            | inl e ↦ rw (k, e, bridge_read_cgroup, cgroup_read_metrics) (inl ((λ h. cc), inr refl))
            | inr (e, c, l, u, p) ↦
                rw (k, e, bridge_read_cgroup, cgroup_read_metrics)
                  (inr (
                    refl,
                    (
                      refl,
                      refl,
                      c,
                      l,
                      refl,
                      refl,
                      usage_shown (is_some (file (codes "cpu.stat"))) _ _ u,
                      p,
                    ),
                  ))
          ]
  ]

  -- Whatever the registry and the files are, `nexus_bridge_read_container` either returns an error
  -- and the snapshot is left alone or all zeros and not valid; or it returns NEXUS_OK, the name has
  -- a container that is not DELETED, and the snapshot is valid and holds the usage and the limit
  -- that the files of its cgroup say, the limit's presence, the pressure of the two, and the CPU
  -- time of cpu.stat with whether that file is there, 0 where it is not.
  pub bridge_read_container-Measured :
      (r : Registry) (name : Option Str) (out : Snapshot D.F)
      → (let result = bridge_read_container D os r name out w in
          Outcome out result (
            (c : Container) × (container_get r name ≡ some c)
            × (is_deleted c.state ≡ false)
            × Measured c.cgroup_path result.1))
  unfolding bridge_read_container
  bridge_read_container-Measured r name out = elim (Bool-cases (is_blank name)) [
    | inl k ↦ rw (k, bridge_read_container) (inl ((λ h. cc), inl refl))
    | inr k ↦ elim (Option-cases (container_get r name)) [
      | inl e ↦ rw (k, e, bridge_read_container) (inl ((λ h. cc), inl refl))
      | inr (c, e) ↦ elim (Bool-cases (is_deleted c.state)) [
        | inl d ↦ rw (k, e, d, bridge_read_container) (inl ((λ h. cc), inl refl))
        | inr d ↦
            rw (k, e, d, bridge_read_container)
              (elim (read_cgroup_cases c.cgroup_path out) [
                | inl failed ↦ inl failed
                | inr (ok, measured) ↦ inr (ok, (c, refl, d, measured))
              ])
      ]
    ]
  ]
