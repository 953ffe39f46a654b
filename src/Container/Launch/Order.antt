-- ===== src/Container/Launch/Order.antt =====
-- The order of the steps of `container_start`: spawn behind the gate, attach, release.
use nexus_db.Prelude.{
  ℕ, ◌≡◌, refl, ◌∙◌, sym, ap, subst, ◌||◌, ◌&&◌, not, true, false, Option, some, inl, inr, arith,
  Str, codes, Bool-cases, Option-cases, is_pos, is_minus_one, minus_one,
}
use mathlib.Core.Option.{some-injective}
use nexus_db.Rc.{Rc, is_ok}
use nexus_db.Container.Types.{State, is_created, is_stopped, Container}
use nexus_db.Container.Host.{ProcessExec, Host}
use nexus_db.Container.Registry.{
  Registry, name_valid, find_slot, slot_at, container_get, write_container, with_slot,
}
use nexus_db.Container.Registry.Found.{
  find_slot-Found, claim_slot-found, container_get-find, container_get-none, with_slot-cases,
}
use nexus_db.Container.Lookup.{container_get-written}
use nexus_db.Container.Launch.{
  gate_config, workload_spec, attach_and_release, launch, start_slot, container_start,
}

-- The value of $NEXUSDB_DATA_ROOT.
abbrev pub root_env : {F : Type 0} (H : Host F) → H.World → Option Str
root_env H w = H.getenv (codes "NEXUSDB_DATA_ROOT") w

-- The lookup that a name's record came from.
pub slot_of :
    (r : Registry) (name : Option Str) (c : Container)
    → container_get r name ≡ some c
    → (i : ℕ) × (find_slot r.slots name ≡ some i) × ((slot_at r.slots i).c ≡ c)
slot_of r name c got = elim (Option-cases (find_slot r.slots name)) [
  | inl f ↦ cc (container_get-none r name f)
  | inr (i, f) ↦ (i, f, some-injective _ _ (sym (container_get-find r name i f) ∙ got))
]

-- A record written into the slot in which its name was found.
pub container_get-rewritten :
    (r : Registry) (name : Option Str) (i : ℕ) (c : Container)
    → find_slot r.slots name ≡ some i
    → c.name ≡ (slot_at r.slots i).c.name
    → container_get (write_container r i c) name ≡ some c
container_get-rewritten r name i c f e =
    let found = find_slot-Found r.slots name i f in
    container_get-written r (write_container r i c) name i (record (slot_at r.slots i) { c = c })
      found.in_use (ap some e ∙ found.named) (claim_slot-found r.slots name i f) refl

module _ {F : Type 0} (H : Host F) where
  open H use {World, cgroup_attach, process_spawn_gated, process_gate_release, process_gate_abort}

  -- The steps of a start that succeeded, from the record `c` of the name: the child was spawned,
  -- it was attached to the record's cgroup, only then it was released, and nothing else happened.
  abbrev pub Launched : Container → ProcessExec → World → World → Type 0
  Launched c spec w w' =
      let (p, gate, w1) = process_spawn_gated spec (gate_config c) w in
      let (attached, w2) = cgroup_attach c.cgroup_path p w1 in
      let (released, w3) = process_gate_release gate w2 in
      (is_pos p ≡ true) × (attached ≡ Rc.ok) × (is_pos released ≡ true) × (w' ≡ w3)

  launch_ok :
      (i : ℕ) (spec : ProcessExec) (r : Registry) (w : World)
      → (launch H i spec r w).0 ≡ Rc.ok
      → let c = (slot_at r.slots i).c in
        let pid = (process_spawn_gated spec (gate_config c) w).0 in
        Launched c spec w (launch H i spec r w).2
        × ((launch H i spec r w).1
            ≡ write_container r i (record c { pid = pid; state = State.running }))
  unfolding launch attach_and_release
  launch_ok i spec r w h = ground arith

  -- The rest of a start, for a slot whose record may start.
  start_ok_at :
      (i : ℕ) (r : Registry) (w : World)
      → (start_slot H i r w).0 ≡ Rc.ok
      → (spec : ProcessExec) × (workload_spec (slot_at r.slots i).c (root_env H w) ≡ some spec)
        × (start_slot H i r w ≡ launch H i spec r w)
  unfolding start_slot
  start_ok_at i r w =
      let c = (slot_at r.slots i).c in
      elim (Bool-cases (not (is_created c.state) && not (is_stopped c.state))) [
        | inl e ↦ rw e (λ h. cc)
        | inr e ↦ elim (Bool-cases (not (is_minus_one c.pid) && H.process_is_alive c.pid w)) [
          | inl l ↦ rw (e, l) (λ h. cc)
          | inr l ↦ elim (Option-cases (workload_spec c (root_env H w))) [
            | inl o ↦ rw (e, l, o) (λ h. cc)
            | inr (spec, o) ↦ rw (e, l, o) (λ h. (spec, refl, refl))
          ]
        ]
      ]

  abbrev StartOk : Option Str → Registry → World → Rc × Registry × World → Type 0
  StartOk name r w t =
      t.0 ≡ Rc.ok
      → (c : Container) × (spec : ProcessExec) × (container_get r name ≡ some c)
        × (workload_spec c (root_env H w) ≡ some spec)
        × Launched c spec w t.2
        × (container_get t.1 name
            ≡ some (record c {
              pid = (process_spawn_gated spec (gate_config c) w).0;
              state = State.running;
            }))

  start_slot_ok :
      (name : Option Str) (r : Registry) (w : World) (i : ℕ)
      → find_slot r.slots name ≡ some i
      → StartOk name r w (start_slot H i r w)
  start_slot_ok name r w i f h =
      let (spec, specified, e) = start_ok_at i r w h in
      let (steps, written) =
        launch_ok i spec r w (sym (ap (λ (t : Rc × Registry × World). t.0) e) ∙ h) in
      rw e (
        (slot_at r.slots i).c,
        spec,
        container_get-find r name i f,
        specified,
        steps,
        rw written (container_get-rewritten r name i _ f refl),
      )

  -- If `container_start` returns NEXUS_OK then the name has a record `c` before the call and its
  -- workload a specification; the child was spawned behind the gate with the record's namespaces
  -- and has a positive pid, was then attached to the record's cgroup with NEXUS_OK, and only then
  -- released, with success; nothing else happened to the world; and the record afterwards is `c`
  -- in the state RUNNING with the pid of that child.
  pub start_ok :
      (name : Option Str) (r : Registry) (w : World)
      → (container_start H name r w).0 ≡ Rc.ok
      → (c : Container) × (spec : ProcessExec) × (container_get r name ≡ some c)
        × (workload_spec c (root_env H w) ≡ some spec)
        × Launched c spec w (container_start H name r w).2
        × (container_get (container_start H name r w).1 name
            ≡ some (record c {
              pid = (process_spawn_gated spec (gate_config c) w).0;
              state = State.running;
            }))
  unfolding container_start
  start_ok name r w =
      with_slot-cases (StartOk name r w) name r w _ (λ _ h. cc) (λ _ _ h. cc)
        (λ i _ f. start_slot_ok name r w i f)

  abbrev Unattached : Option Str → Registry → World → ProcessExec → Container → Type 0
  Unattached name r w spec c =
      (is_created c.state || is_stopped c.state) ≡ true
      → (not (is_minus_one c.pid) && H.process_is_alive c.pid w) ≡ false
      → workload_spec c (root_env H w) ≡ some spec
      → is_pos (process_spawn_gated spec (gate_config c) w).0 ≡ true
      → (let (p, _, w1) = process_spawn_gated spec (gate_config c) w in
          is_ok (cgroup_attach c.cgroup_path p w1).0 ≡ false)
      → (let (p, gate, w1) = process_spawn_gated spec (gate_config c) w in
          let (rc, r', w') = container_start H name r w in
          (rc ≡ Rc.process)
          × (w' ≡ process_gate_abort gate (cgroup_attach c.cgroup_path p w1).1)
          × (container_get r' name ≡ some (record c { pid = minus_one })))

  start_slot-launch :
      (i : ℕ) (r : Registry) (w : World) (spec : ProcessExec)
      → (let c = (slot_at r.slots i).c in
          (is_created c.state || is_stopped c.state) ≡ true
          → (not (is_minus_one c.pid) && H.process_is_alive c.pid w) ≡ false
          → workload_spec c (root_env H w) ≡ some spec
          → start_slot H i r w ≡ launch H i spec r w)
  unfolding start_slot
  start_slot-launch i r w spec may dead specified =
      let idle : (not (is_created (slot_at r.slots i).c.state)
            && not (is_stopped (slot_at r.slots i).c.state))
          ≡ false =
        ground arith in
      rw (idle, dead, specified)

  launch_unattached :
      (i : ℕ) (r : Registry) (w : World) (spec : ProcessExec)
      → (let c = (slot_at r.slots i).c in
          let (p, gate, w1) = process_spawn_gated spec (gate_config c) w in
          is_pos p ≡ true
          → is_ok (cgroup_attach c.cgroup_path p w1).0 ≡ false
          → launch H i spec r w ≡ (
            Rc.process,
            write_container r i (record c { pid = minus_one }),
            process_gate_abort gate (cgroup_attach c.cgroup_path p w1).1,
          ))
  unfolding launch attach_and_release
  launch_unattached i r w spec spawned refused = rw (spawned, refused)

  slot_at-Unattached :
      (name : Option Str) (r : Registry) (w : World) (spec : ProcessExec) (i : ℕ)
      → name_valid name ≡ true
      → find_slot r.slots name ≡ some i
      → Unattached name r w spec (slot_at r.slots i).c
  unfolding container_start with_slot
  slot_at-Unattached name r w spec i valid f may dead specified spawned refused =
      rw
        (
          valid,
          f,
          start_slot-launch i r w spec may dead specified,
          launch_unattached i r w spec spawned refused,
        )
        (refl, refl, container_get-rewritten r name i _ f refl)

  -- If the name is valid and its record `c` may start, and the child is spawned but cannot be
  -- attached to the record's cgroup, then the call returns NEXUS_ERR_PROCESS, the blocked child is
  -- killed through its gate and never released, and the record keeps its state with the pid -1.
  start_unattached :
      (name : Option Str) (r : Registry) (w : World) (c : Container) (spec : ProcessExec)
      → name_valid name ≡ true
      → container_get r name ≡ some c
      → (is_created c.state || is_stopped c.state) ≡ true
      → (not (is_minus_one c.pid) && H.process_is_alive c.pid w) ≡ false
      → workload_spec c (root_env H w) ≡ some spec
      → is_pos (process_spawn_gated spec (gate_config c) w).0 ≡ true
      → (let (p, _, w1) = process_spawn_gated spec (gate_config c) w in
          is_ok (cgroup_attach c.cgroup_path p w1).0 ≡ false)
      → (let (p, gate, w1) = process_spawn_gated spec (gate_config c) w in
          let (rc, r', w') = container_start H name r w in
          (rc ≡ Rc.process)
          × (w' ≡ process_gate_abort gate (cgroup_attach c.cgroup_path p w1).1)
          × (container_get r' name ≡ some (record c { pid = minus_one })))
  start_unattached name r w c spec valid got =
      let (i, f, e) = slot_of r name c got in
      subst (Unattached name r w spec) e (slot_at-Unattached name r w spec i valid f)
