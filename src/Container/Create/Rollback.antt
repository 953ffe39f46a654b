-- ===== src/Container/Create/Rollback.antt =====
-- How `container_create_ex` provisions the cgroup before it touches the registry.
use nexus_db.Prelude.{
  ℕ, ◌+◌, ◌%◌, ◌^◌, ◌≡◌, refl, true, false, none, some, Bool-cases, Option-cases, inl, inr,
}
use nexus_db.Rc.{Rc, is_ok}
use nexus_db.Container.Types.{path_max}
use nexus_db.Container.Host.{Host}
use nexus_db.Container.Registry.{Registry, claim_slot, container_get, or_empty}
use nexus_db.Container.Create.{
  CreateArgs, create_rejects, is_live_at, provision, new_container, create_in, container_create_ex,
}
use nexus_db.Container.Lookup.{container_get-written}
use nexus_db.Container.Machine.{ok_of_is_ok}
use nexus_db.Container.Touches.{new_container-name}

is_ok_of_ok : (rc : Rc) → rc ≡ Rc.ok → is_ok rc ≡ true
is_ok_of_ok rc h = rw h

module _ {F : Type 0} (H : Host F) where
  open H use {World, cgroup_init, cgroup_create, cgroup_set_limits, cgroup_destroy, time}

  -- If the arguments are accepted, no live container has the name, a slot can be claimed and the
  -- cgroup was created, but its limits are refused, then the call returns that code, the registry
  -- is the one before the call, and the cgroup that was just created is destroyed.
  create_rollback :
      (a : CreateArgs) (r : Registry) (w : World) (i : ℕ)
      → create_rejects a ≡ false
      → is_live_at r a.name ≡ false
      → claim_slot r.slots a.name ≡ some i
      → (let (made, path, w1) = cgroup_create (or_empty a.name) path_max (cgroup_init none w).1 in
          is_ok made ≡ true)
      → (let (made, path, w1) = cgroup_create (or_empty a.name) path_max (cgroup_init none w).1 in
          is_ok (cgroup_set_limits path a.memory_bytes a.cpu_percent w1).0 ≡ false)
      → (let (made, path, w1) = cgroup_create (or_empty a.name) path_max (cgroup_init none w).1 in
          let (limited, w2) = cgroup_set_limits path a.memory_bytes a.cpu_percent w1 in
          container_create_ex H a r w ≡ (limited, r, (cgroup_destroy path w2).1))
  unfolding container_create_ex create_in provision
  create_rollback a r w i accepted fresh claimed made refused =
      rw (accepted, fresh, claimed, made, refused, refused)

  abbrev Created : CreateArgs → Registry → World → Rc × Registry × World → Type 0
  Created a r w t =
      let (made, path, w1) = cgroup_create (or_empty a.name) path_max (cgroup_init none w).1 in
      let (limited, w2) = cgroup_set_limits path a.memory_bytes a.cpu_percent w1 in
      (made ≡ Rc.ok)
      × (limited ≡ Rc.ok)
      × (t.2 ≡ w2)
      × (container_get t.1 a.name ≡ some (new_container a path r.next_id (time w2)))
      × (t.1.next_id ≡ (r.next_id + 1) % 2 ^ 64)

  create_in_ok :
      (a : CreateArgs) (r : Registry) (w : World) (i : ℕ)
      → create_rejects a ≡ false
      → claim_slot r.slots a.name ≡ some i
      → (create_in H a i r w).0 ≡ Rc.ok
      → Created a r w (create_in H a i r w)
  unfolding create_in provision
  create_in_ok a r w i accepted f =
      let (made, path, w1) = cgroup_create (or_empty a.name) path_max (cgroup_init none w).1 in
      let (limited, w2) = cgroup_set_limits path a.memory_bytes a.cpu_percent w1 in
      elim (Bool-cases (is_ok made)) [
        | inr e ↦ rw (e, e) (λ h. cc (is_ok_of_ok made h))
        | inl e ↦ elim (Bool-cases (is_ok limited)) [
          | inr k ↦ rw (e, k, k) (λ h. cc (is_ok_of_ok limited h))
          | inl k ↦
              rw (e, k)
                (λ _. (
                  ok_of_is_ok made e,
                  ok_of_is_ok limited k,
                  refl,
                  container_get-written r _ a.name i _ refl
                      (new_container-name a path r.next_id (time w2) accepted) f refl,
                  refl,
                ))
        ]
      ]

  -- If a create succeeds then the cgroup was created and its limits were set with NEXUS_OK, nothing
  -- else happened to the world, the record of the name is the new one, with the path of that cgroup
  -- and the number `g_next_id`, and `g_next_id` is one more, modulo 2^64.
  create_ok :
      (a : CreateArgs) (r : Registry) (w : World)
      → (container_create_ex H a r w).0 ≡ Rc.ok
      → (let (made, path, w1) = cgroup_create (or_empty a.name) path_max (cgroup_init none w).1 in
          let (limited, w2) = cgroup_set_limits path a.memory_bytes a.cpu_percent w1 in
          let (_, r', w') = container_create_ex H a r w in
          (made ≡ Rc.ok)
          × (limited ≡ Rc.ok)
          × (w' ≡ w2)
          × (container_get r' a.name ≡ some (new_container a path r.next_id (time w2)))
          × (r'.next_id ≡ (r.next_id + 1) % 2 ^ 64))
  unfolding container_create_ex
  create_ok a r w = elim (Bool-cases (create_rejects a)) [
    | inl e ↦ rw e (λ h. cc)
    | inr e ↦ elim (Bool-cases (is_live_at r a.name)) [
      | inl l ↦ rw (e, l) (λ h. cc)
      | inr l ↦ elim (Option-cases (claim_slot r.slots a.name)) [
        | inl full ↦ rw (e, l, full) (λ h. cc)
        | inr (i, f) ↦ rw (e, l, f) (create_in_ok a r w i e f)
      ]
    ]
  ]
