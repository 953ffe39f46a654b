-- ===== src/Manager/Lifecycle/Outcomes.antt =====
-- What the container operations of the manager did where they answered kOk.
use nexus_db.Prelude.{
  ◌≡◌, refl, sym, ap, ◌∙◌, inl, inr, true, false, Option, some, Bool-cases, Str, pos, minus_one,
  arith,
}
use nexus_db.Rc.{Rc, is_ok, is_ok→ok}
use nexus_db.Db.Status
use nexus_db.Db.Status.{DbError}
use nexus_db.Container.Types.{State}
use nexus_db.Container.Host.{Host}
use nexus_db.Container.Registry.{Registry, container_get}
use nexus_db.Container.Launch.{container_start}
use nexus_db.Container.Teardown.{container_stop}
use nexus_db.Container.Adopt.{container_adopt}
use nexus_db.Container.Calls
use nexus_db.Container.Calls.{perform}
use nexus_db.Container.Machine
use nexus_db.Container.Machine.{Moves, Step, moves, stays, state_of, perform-Step}
use nexus_db.Manager.Meta.{ContainerMeta, save_meta}
use nexus_db.Manager.Lifecycle.{
  Saving, whole, unopened, cut, unnoticed, is_noticed, is_running_int, is_valid_name, adopt_args,
  pid_of, map_container_rc, adopted_with, Kept, with_file, load, save, adopt, after, start_adopted,
  stop_adopted,
}

start-Moves :
    {n : Option Str} {from : Option State} {to : State}
    → Moves (Calls.start n) from to
    → to ≡ State.running
start-Moves Moves.start_created = refl
start-Moves Moves.start_stopped = refl

stop-Moves :
    {n : Option Str} {from : Option State} {to : State}
    → Moves (Calls.stop n) from to
    → to ≡ State.stopped
stop-Moves Moves.stop_running = refl

map_container_rc-ok : (rc : Rc) → map_container_rc rc ≡ DbError.ok → is_ok rc ≡ true
map_container_rc-ok rc h = ground arith

module _ {F : Type 0} (H : Host F) where
  open H use {World}

  -- A start that succeeds leaves the record RUNNING, a stop STOPPED.
  pub started_state :
      (name : Str) (r : Registry) (w : World)
      → (container_start H (some name) r w).0 ≡ Rc.ok
      → state_of (container_get (container_start H (some name) r w).1 (some name))
        ≡ some State.running
  unfolding perform Machine.status
  started_state name r w ok = elim (perform-Step H (Calls.start (some name)) r w) [
    | moves to good move self others ↦ self ∙ ap (λ s. some s) (start-Moves move)
    | stays bad same ↦ absurd (bad ok)
  ]

  pub stopped_state :
      (name : Str) (r : Registry) (w : World)
      → (container_stop H (some name) r w).0 ≡ Rc.ok
      → state_of (container_get (container_stop H (some name) r w).1 (some name))
        ≡ some State.stopped
  unfolding perform Machine.status
  stopped_state name r w ok = elim (perform-Step H (Calls.stop (some name)) r w) [
    | moves to good move self others ↦ self ∙ ap (λ s. some s) (stop-Moves move)
    | stays bad same ↦ absurd (bad ok)
  ]

  save_ok :
      (saving : Saving) (meta : ContainerMeta) (k : Kept H)
      → is_noticed saving ≡ true
      → (save H saving meta k).0 ≡ DbError.ok
      → (save H saving meta k).1 ≡ with_file H meta.name (some (save_meta meta)) k
  unfolding save
  save_ok whole meta k noticed ok = refl
  save_ok unopened meta k noticed ok = cc
  save_ok (cut n) meta k noticed ok = cc
  save_ok (unnoticed n) meta k noticed ok = cc

  -- What `ContainerStart` did where it answered kOk.
  pub start_adopted_ok :
      (saving : Saving) (name : Str) (meta : ContainerMeta) (k : Kept H)
      → is_noticed saving ≡ true
      → (start_adopted H saving name meta k).0 ≡ DbError.ok
      → let (rc, r, w) = container_start H (some name) k.registry k.world in
        (rc ≡ Rc.ok)
        × ((start_adopted H saving name meta k).1
            ≡ with_file H meta.name
                (some (
                  save_meta
                    (record meta { pid = pid_of (container_get r (some name)); state = pos 1 })))
                (after H r w k))
  unfolding start_adopted
  start_adopted_ok saving name meta k noticed = elim (Bool-cases (is_running_int meta.state)) [
    | inl e ↦ simp e (λ ok. cc)
    | inr e ↦
        let call = container_start H (some name) k.registry k.world in
        elim (Bool-cases (is_ok call.0)) [
          | inr bad ↦ simp (e, bad) (λ ok. let good = map_container_rc-ok call.0 ok in cc)
          | inl good ↦ simp (e, good) (λ ok. (is_ok→ok call.0 good, save_ok saving _ _ noticed ok))
        ]
  ]

  pub stop_adopted_ok :
      (saving : Saving) (name : Str) (meta : ContainerMeta) (k : Kept H)
      → is_noticed saving ≡ true
      → (stop_adopted H saving name meta k).0 ≡ DbError.ok
      → let (rc, r, w) = container_stop H (some name) k.registry k.world in
        (rc ≡ Rc.ok)
        × ((stop_adopted H saving name meta k).1
            ≡ with_file H meta.name
                (some (save_meta (record meta { pid = minus_one; state = pos 2 })))
                (after H r w k))
  unfolding stop_adopted
  stop_adopted_ok saving name meta k noticed =
      let call = container_stop H (some name) k.registry k.world in
      elim (Bool-cases (is_ok call.0)) [
        | inr bad ↦ simp bad (λ ok. let good = map_container_rc-ok call.0 ok in cc)
        | inl good ↦ simp good (λ ok. (is_ok→ok call.0 good, save_ok saving _ _ noticed ok))
      ]

  adopt_loaded :
      (name : Str) (meta : ContainerMeta) (k : Kept H)
      → load H name k ≡ some meta
      → let (rc, r) = container_adopt (adopt_args meta) (H.time k.world) k.registry in
        adopt H name k ≡ (map_container_rc rc, meta, record k { registry = r })
  unfolding adopt
  adopt_loaded name meta k e = rw (adopt, e) refl

  -- Where an operation on an adopted name answers kOk, it ran on the state with the adopted record.
  pub adopted_ok :
      (name : Str) (meta : ContainerMeta) (op : ContainerMeta → Kept H → DbError × Kept H)
      (k : Kept H)
      → load H name k ≡ some meta
      → (adopted_with H name op k).0 ≡ DbError.ok
      → let r = (container_adopt (adopt_args meta) (H.time k.world) k.registry).1 in
        let k' : Kept H = record k { registry = r } in
        ((op meta k').0 ≡ DbError.ok) × ((adopted_with H name op k).1 ≡ (op meta k').1)
  adopted_ok name meta op k e = elim (Bool-cases (is_valid_name name)) [
    | inr bad ↦ simp bad (λ ok. cc)
    | inl good ↦
        let code =
          map_container_rc (container_adopt (adopt_args meta) (H.time k.world) k.registry).0 in
        elim (Bool-cases (Status.is_ok code)) [
          | inr bad ↦
              simp (good, adopt_loaded name meta k e, bad)
                (λ ok. let wrong : true ≡ false = ap Status.is_ok (sym ok) ∙ bad in absurd (cc))
          | inl fine ↦ simp (good, adopt_loaded name meta k e, fine) (λ ok. (ok, refl))
        ]
  ]
