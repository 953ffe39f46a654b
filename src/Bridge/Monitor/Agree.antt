-- ===== src/Bridge/Monitor/Agree.antt =====
-- The two readers of a container's memory, `memory_bridge_query` and `nexus_bridge_read_container`.
use nexus_db.Prelude.{
  ◌≡◌, refl, sym, ◌∙◌, true, false, Option, none, some, [], ◌∷◌, Str, Bool-cases, Option-cases, inl,
  inr,
}
use nexus_db.Rc.{Rc, is_ok, is_ok→ok}
use nexus_db.Double.{Double}
use nexus_db.Os.{Os}
use nexus_db.Container.Types.{CgroupMetrics, is_deleted}
use nexus_db.Container.Registry.{Registry, name_valid, find_slot, slot_at, container_get}
use nexus_db.Cgroup.{is_blank}
use nexus_db.Cgroup.Metrics.{no_metrics, cgroup_read_metrics}
use nexus_db.Bridge.Snapshot.{Snapshot}
use nexus_db.Bridge.Monitor.{bridge_read_cgroup, bridge_read_container}
use nexus_db.Bridge.Memory.{container_metrics, memory_bridge_query}

name_valid-is_blank : (name : Option Str) → name_valid name ≡ true → is_blank name ≡ false
unfolding name_valid
name_valid-is_blank none h = cc
name_valid-is_blank (some []) h = cc
name_valid-is_blank (some (c ∷ s)) h = refl

module _ (D : Double) (os : Os) (w : os.World) where
  read_metrics_rc :
      (path : Option Str) (a b : CgroupMetrics D.F)
      → (cgroup_read_metrics D os path a w).0 ≡ (cgroup_read_metrics D os path b w).0
  unfolding cgroup_read_metrics
  read_metrics_rc path a b = elim (Bool-cases (is_blank path)) [
    | inl k ↦ rw (k, cgroup_read_metrics) refl
    | inr k ↦ rw (k, cgroup_read_metrics) refl
  ]

  read_metrics_blank :
      (path : Option Str) (m : CgroupMetrics D.F)
      → is_blank path ≡ true
      → (cgroup_read_metrics D os path m w).0 ≡ Rc.invalid
  unfolding cgroup_read_metrics
  read_metrics_blank path m k = rw (k, cgroup_read_metrics) refl

  read_cgroup_rc :
      (path : Option Str) (out : Snapshot D.F)
      → (bridge_read_cgroup D os path out w).0
        ≡ (cgroup_read_metrics D os path (no_metrics D os) w).0
  unfolding bridge_read_cgroup
  read_cgroup_rc path out = elim (Bool-cases (is_blank path)) [
    | inl k ↦ rw (k, bridge_read_cgroup) (sym (read_metrics_blank path (no_metrics D os) k))
    | inr k ↦
        let rc = (cgroup_read_metrics D os path (no_metrics D os) w).0 in
        elim (Bool-cases (is_ok rc)) [
          | inl o ↦ let fine : rc ≡ Rc.ok = is_ok→ok rc o in rw (k, fine, bridge_read_cgroup) refl
          | inr o ↦ rw (k, o, bridge_read_cgroup) refl
        ]
  ]

  -- For a valid name, `memory_bridge_query` and `nexus_bridge_read_container` return the same code.
  query-read_container :
      (r : Registry) (name : Option Str) (m : CgroupMetrics D.F) (out : Snapshot D.F)
      → name_valid name ≡ true
      → (memory_bridge_query D os r name (some m) w).0 ≡ (bridge_read_container D os r name out w).0
  unfolding memory_bridge_query container_metrics bridge_read_container container_get
  query-read_container r name m out valid =
      let named = name_valid-is_blank name valid in
      elim (Option-cases (find_slot r.slots name)) [
        | inl e ↦
            rw
              (
                valid, named, e, memory_bridge_query, container_metrics, bridge_read_container,
                container_get,
              )
              refl
        | inr (i, e) ↦
            let path = some (slot_at r.slots i).c.cgroup_path in
            elim (Bool-cases (is_deleted (slot_at r.slots i).c.state)) [
              | inl d ↦
                  rw
                    (
                      valid, named, e, d, memory_bridge_query, container_metrics,
                      bridge_read_container, container_get,
                    )
                    refl
              | inr d ↦
                  rw
                    (
                      valid, named, e, d, memory_bridge_query, container_metrics,
                      bridge_read_container, container_get,
                    )
                    (read_metrics_rc path m (no_metrics D os) ∙ sym (read_cgroup_rc path out))
            ]
      ]
