-- ===== src/Container/Touches.antt =====
-- What one call does to the slots: it leaves them alone, or it writes one record, that of the name
-- it is about. The theorems on histories need nothing else of the calls.
use nexus_db.Prelude.{
  ℕ, ◌≡◌, refl, inl, inr, true, false, Option, some, arith, Str, set, Bool-cases, Option-cases, ℤ,
  is_pos, is_minus_one, minus_one, not, ◌||◌, ◌&&◌, ap, codes,
}
use nexus_db.Rc.{Rc, is_ok}
use nexus_db.Container.Registry.Found.{
  find_slot-Found, claim_slot-found, container_get-find, with_slot-cases, name_valid-copied,
}
use nexus_db.Container.Types.{State, is_created, is_running, is_stopped, is_deleted}
use nexus_db.Container.Host.{Host, ProcessExec}
use nexus_db.Container.Registry.{Slot, Registry, find_slot, claim_slot, slot_at, or_empty}
use nexus_db.Container.Create.{
  CreateArgs, is_live_at, new_container, provision, create_in, create_rejects, container_create_ex,
}
use nexus_db.Container.Adopt.{
  AdoptArgs, adopt_rejects, state_of_int, adopted_container, container_adopt,
}
use nexus_db.Container.Launch.{
  gate_config, workload_spec, attach_and_release, launch, start_slot, container_start,
}
use nexus_db.Container.Teardown.{
  stop_slot, container_stop, stop_leftover, delete_slot, container_delete,
}
use nexus_db.Container.Calls.{Call, create, adopt, start, stop, delete, subject, perform}
use nexus_db.Container.Updates.{
  Update, created, adopted, started, start_failed, stopped, deleted, delete_failed,
}

pub data Touches (c : Call) (rc : Rc) (r r' : Registry) : Type 0 where
  same : is_ok rc ≡ false → r'.slots ≡ r.slots → Touches c rc r r'
  wrote :
      (i : ℕ) (s : Slot)
      → claim_slot r.slots (subject c) ≡ some i
      → s.in_use ≡ true
      → some s.c.name ≡ subject c
      → r'.slots ≡ set r.slots i s
      → Update r (slot_at r.slots i).c s.c (is_ok rc) c
      → Touches c rc r r'

pub new_container-name :
    (a : CreateArgs) (path : Str) (n : ℕ) (now : ℤ)
    → create_rejects a ≡ false
    → some (new_container a path n now).name ≡ a.name
unfolding new_container create_rejects
new_container-name a path n now h = ground (arith, name_valid-copied a.name)

adopted_container-name :
    (a : AdoptArgs) (state : State) (now : ℤ)
    → adopt_rejects a ≡ false
    → some (adopted_container a state now).name ≡ a.name
unfolding adopted_container adopt_rejects
adopted_container-name a state now h = ground (arith, name_valid-copied a.name)

eq_minus_one : (z : ℤ) → is_minus_one z ≡ true → z ≡ minus_one
eq_minus_one z h = ground arith

-- A container that is neither created nor stopped, as the sources test it.
can_start :
    (s : State)
    → (not (is_created s) && not (is_stopped s)) ≡ false
    → (is_created s || is_stopped s) ≡ true
can_start s h = ground arith

can_delete :
    (s : State)
    → is_running s ≡ false
    → is_deleted s ≡ false
    → (is_created s || is_stopped s) ≡ true
can_delete s h k = ground arith

adopt-Touches :
    (a : AdoptArgs) (now : ℤ) (r : Registry)
    → Touches (adopt a) (container_adopt a now r).0 r (container_adopt a now r).1
unfolding container_adopt
adopt-Touches a now r = elim (Bool-cases (adopt_rejects a)) [
  | inl e ↦ rw e (same refl refl)
  | inr e ↦ elim (Option-cases (state_of_int a.state)) [
    | inl s ↦ rw (e, s) (same refl refl)
    | inr (state, s) ↦ elim (Option-cases (claim_slot r.slots a.name)) [
      | inl full ↦ rw (e, s, full) (same refl refl)
      | inr (i, f) ↦
          rw (e, s, f)
            (wrote i _ f refl (adopted_container-name a state now e) refl
              (adopted state now e s refl refl))
    ]
  ]
]

module _ {F : Type 0} (H : Host F) where
  open H use {World}

  create-Touches :
      (a : CreateArgs) (r : Registry) (w : World)
      → Touches (create a) (container_create_ex H a r w).0 r (container_create_ex H a r w).1
  unfolding container_create_ex create_in
  create-Touches a r w = elim (Bool-cases (create_rejects a)) [
    | inl e ↦ rw e (same refl refl)
    | inr e ↦ elim (Bool-cases (is_live_at r a.name)) [
      | inl l ↦ rw (e, l) (same refl refl)
      | inr l ↦ elim (Option-cases (claim_slot r.slots a.name)) [
        | inl full ↦ rw (e, l, full) (same refl refl)
        | inr (i, f) ↦
            elim (Bool-cases
              (is_ok (provision H (or_empty a.name) a.memory_bytes a.cpu_percent w).0)) [
                | inr bad ↦ rw (e, l, f, bad) (same bad refl)
                | inl made ↦
                    rw (e, l, f, made)
                      (wrote i _ f refl (new_container-name a _ _ _ e) refl
                        (created _ _ _ e l refl refl))
              ]
      ]
    ]
  ]

  launch-Touches :
      (name : Option Str) (r : Registry) (w : World) (i : ℕ) (spec : ProcessExec)
      → find_slot r.slots name ≡ some i
      → (is_created (slot_at r.slots i).c.state || is_stopped (slot_at r.slots i).c.state) ≡ true
      → Touches (start name) (launch H i spec r w).0 r (launch H i spec r w).1
  unfolding launch
  launch-Touches name r w i spec f may =
      let got = container_get-find r name i f in
      let found = find_slot-Found r.slots name i f in
      let claim = claim_slot-found r.slots name i f in
      let c = (slot_at r.slots i).c in
      let spawned = H.process_spawn_gated spec (gate_config c) w in
      elim (Bool-cases (is_pos spawned.0)) [
        | inr e ↦ rw e (same refl refl)
        | inl e ↦
            elim (Bool-cases (attach_and_release H c.cgroup_path spawned.0 spawned.1 spawned.2).0) [
              | inl runs ↦
                  rw (e, runs)
                    (wrote i _ claim found.in_use found.named refl (started _ got may e refl refl))
              | inr fails ↦
                  rw (e, fails)
                    (wrote i _ claim found.in_use found.named refl (start_failed got may refl refl))
            ]
      ]

  start_slot-Touches :
      (name : Option Str) (r : Registry) (w : World) (i : ℕ)
      → find_slot r.slots name ≡ some i
      → Touches (start name) (start_slot H i r w).0 r (start_slot H i r w).1
  unfolding start_slot
  start_slot-Touches name r w i f =
      let c = (slot_at r.slots i).c in
      elim (Bool-cases (not (is_created c.state) && not (is_stopped c.state))) [
        | inl e ↦ rw e (same refl refl)
        | inr e ↦ elim (Bool-cases (not (is_minus_one c.pid) && H.process_is_alive c.pid w)) [
          | inl l ↦ rw (e, l) (same refl refl)
          | inr l ↦ elim (Option-cases (workload_spec c (H.getenv (codes "NEXUSDB_DATA_ROOT") w))) [
            | inl o ↦ rw (e, l, o) (same refl refl)
            | inr (spec, o) ↦ rw (e, l, o) (launch-Touches name r w i spec f (can_start c.state e))
          ]
        ]
      ]

  stop_slot-Touches :
      (name : Option Str) (r : Registry) (w : World) (i : ℕ)
      → find_slot r.slots name ≡ some i
      → Touches (stop name) (stop_slot H i r w).0 r (stop_slot H i r w).1
  unfolding stop_slot
  stop_slot-Touches name r w i f =
      let got = container_get-find r name i f in
      let found = find_slot-Found r.slots name i f in
      let claim = claim_slot-found r.slots name i f in
      let old = (slot_at r.slots i).c in
      elim (Bool-cases (is_running old.state)) [
        | inr e ↦ rw e (same refl refl)
        | inl e ↦ elim (Bool-cases (is_minus_one old.pid)) [
          | inl m ↦
              rw (e, m)
                (wrote i _ claim found.in_use found.named refl (
                  stopped got e
                    (ap (λ z. record old { pid = z; state = State.stopped }) (eq_minus_one _ m))
                    refl))
          | inr m ↦ elim (Bool-cases (H.process_stop old.pid w).0) [
            | inl d ↦
                rw (e, m, d)
                  (wrote i _ claim found.in_use found.named refl (stopped got e refl refl))
            | inr d ↦ rw (e, m, d) (same refl refl)
          ]
        ]
      ]

  delete_slot-Touches :
      (name : Option Str) (r : Registry) (w : World) (i : ℕ)
      → find_slot r.slots name ≡ some i
      → Touches (delete name) (delete_slot H i r w).0 r (delete_slot H i r w).1
  unfolding delete_slot
  delete_slot-Touches name r w i f =
      let got = container_get-find r name i f in
      let found = find_slot-Found r.slots name i f in
      let claim = claim_slot-found r.slots name i f in
      let c = (slot_at r.slots i).c in
      elim (Bool-cases (is_running c.state)) [
        | inl e ↦ rw e (same refl refl)
        | inr e ↦ elim (Bool-cases (is_deleted c.state)) [
          | inl d ↦ rw (e, d) (same refl refl)
          | inr d ↦
              elim (Bool-cases (is_ok (H.cgroup_destroy c.cgroup_path (stop_leftover H i r w)).0)) [
                | inl gone ↦
                    rw (e, d, gone)
                      (wrote i _ claim found.in_use found.named refl
                        (deleted got (can_delete _ e d) refl refl))
                | inr kept ↦
                    rw (e, d, kept)
                      (wrote i _ claim found.in_use found.named refl
                        (delete_failed got (can_delete _ e d) refl refl))
              ]
        ]
      ]

  -- Every call leaves the slots alone, or writes one record of the name that it is about, in the
  -- slot that the lookup claims for that name, and the record is one that `Update` allows.
  pub perform-Touches :
      (c : Call) (r : Registry) (w : World) → Touches c (perform H c r w).0 r (perform H c r w).1
  unfolding perform container_start container_stop container_delete
  perform-Touches (create a) r w = create-Touches a r w
  perform-Touches (adopt a) r w = adopt-Touches a (H.time w) r
  perform-Touches (start name) r w =
      with_slot-cases (λ t. Touches (start name) t.0 r t.1) name r w _ (λ _. same refl refl)
        (λ _ _. same refl refl) (λ i _ f. start_slot-Touches name r w i f)
  perform-Touches (stop name) r w =
      with_slot-cases (λ t. Touches (stop name) t.0 r t.1) name r w _ (λ _. same refl refl)
        (λ _ _. same refl refl) (λ i _ f. stop_slot-Touches name r w i f)
  perform-Touches (delete name) r w =
      with_slot-cases (λ t. Touches (delete name) t.0 r t.1) name r w _ (λ _. same refl refl)
        (λ _ _. same refl refl) (λ i _ f. delete_slot-Touches name r w i f)
