-- ===== src/Manager/Lifecycle/Agrees.antt =====
-- The metadata file and the registry after the operations of the manager.
use nexus_db.Prelude.{
  ◌≡◌, refl, sym, ap, ◌∙◌, subst, ◌↔◌, inl, inr, true, Option, none, some, Option-cases,
  if◌then◌else◌, Str, str_eq, str_eq_iff, ℤ, pos, minus_one, arith,
}
use mathlib.Core.Option.{some-injective}
use nexus_db.Prelude.Scan.Long.{IsLong}
use nexus_db.Db.Status.{DbError}
use nexus_db.Container.Types.{State, Container}
use nexus_db.Container.Host.{Host}
use nexus_db.Container.Registry.{Registry, container_get}
use nexus_db.Container.Launch.{container_start}
use nexus_db.Container.Teardown.{container_stop}
use nexus_db.Container.Adopt.{container_adopt}
use nexus_db.Container.Machine.{state_of}
use nexus_db.Container.Restore.{int_of_state}
use nexus_db.Manager.Meta.{ContainerMeta, save_meta}
use nexus_db.Manager.Meta.RoundTrip.{IsInt, Storable, load_meta-save_meta}
use nexus_db.Manager.Lifecycle.{
  is_noticed, Saving, is_running_int, is_valid_name, adopt_args, pid_of, Kept, with_file, load,
  after, start_adopted, stop_adopted, start, stop, open_refused,
}
use nexus_db.Manager.Lifecycle.Outcomes.{
  started_state, stopped_state, start_adopted_ok, stop_adopted_ok, adopted_ok,
}

running_iff :
    (s : State)
    → ((if is_running_int (int_of_state s) then some DbError.bad_state else none)
        ≡ some DbError.bad_state)
      ↔ (s ≡ State.running)
running_iff State.created = (λ h. cc, λ h. cc)
running_iff State.running = (λ h. refl, λ h. refl)
running_iff State.stopped = (λ h. cc, λ h. cc)
running_iff State.deleted = (λ h. cc, λ h. cc)

module _ {F : Type 0} (H : Host F) where
  load-with_file :
      (name : Str) (meta : ContainerMeta) (k : Kept H)
      → Storable meta
      → meta.name ≡ name
      → load H name (with_file H meta.name (some (save_meta meta)) k) ≡ some meta
  unfolding load
  load-with_file name meta k h e =
      let same : str_eq name meta.name ≡ true = (str_eq_iff name meta.name).1 (sym e) in
      rw same (ap (λ m. some m) (load_meta-save_meta name meta h))

  -- The file of a name and the record of it tell the same state.
  pub record Agrees (name : Str) (state : State) (k : Kept H) : Type 0 where
    pub meta : ContainerMeta
    pub record_of : Container
    pub registered : container_get k.registry (some name) ≡ some record_of
    pub kept : load H name k ≡ some meta
    pub record_state : record_of.state ≡ state
    pub file_state : meta.state ≡ int_of_state state

  -- And they tell the same pid.
  pub record AgreesWithPid (name : Str) (state : State) (k : Kept H) : Type 0 where
    pub agrees : Agrees name state k
    pub pid : agrees.meta.pid ≡ agrees.record_of.pid

  got_state :
      (r : Registry) (name : Option Str) (state : State)
      → state_of (container_get r name) ≡ some state
      → (c : Container) × (container_get r name ≡ some c) × (c.state ≡ state)
  got_state r name state h = elim (Option-cases (container_get r name)) [
    | inl e ↦ let wrong : none ≡ some state = sym (ap state_of e) ∙ h in absurd (cc)
    | inr (c, e) ↦ (c, e, some-injective _ _ (sym (ap state_of e) ∙ h))
  ]

  -- Metadata that was just written, next to the record of the name.
  written-Agrees :
      (name : Str) (state : State) (meta : ContainerMeta) (k : Kept H)
      → state_of (container_get k.registry (some name)) ≡ some state
      → meta.state ≡ int_of_state state
      → meta.name ≡ name
      → Storable meta
      → Agrees name state (with_file H meta.name (some (save_meta meta)) k)
  written-Agrees name state meta k got same named h =
      let (c, registered, c_state) = got_state k.registry (some name) state got in
      record {
        meta = meta;
        record_of = c;
        registered = registered;
        kept = load-with_file name meta k h named;
        record_state = c_state;
        file_state = same;
      }

  written-AgreesWithPid :
      (name : Str) (state : State) (meta : ContainerMeta) (k : Kept H)
      → state_of (container_get k.registry (some name)) ≡ some state
      → meta.state ≡ int_of_state state
      → meta.pid ≡ pid_of (container_get k.registry (some name))
      → meta.name ≡ name
      → Storable meta
      → AgreesWithPid name state (with_file H meta.name (some (save_meta meta)) k)
  unfolding written-Agrees
  written-AgreesWithPid name state meta k got same pid named h =
      let agrees = written-Agrees name state meta k got same named h in
      record { agrees = agrees; pid = pid ∙ ap pid_of agrees.registered }

  restate :
      {meta : ContainerMeta}
      → Storable meta
      → (pid state : ℤ) → IsLong pid
      → IsInt state
      → Storable (record meta { pid = pid; state = state })
  restate h pid state p s = record {
    name = h.name;
    id = h.id;
    engine = h.engine;
    cgroup = h.cgroup;
    memory = h.memory;
    cpu = h.cpu;
    pid = p;
    state = s;
  }

  -- A start that answers kOk wrote metadata that tells the state and the pid of the record,
  -- RUNNING, where the metadata before told the name and fits its file, the pid of the record fits
  -- it too, and the file does not fail unnoticed.
  pub start-Agrees :
      (saving : Saving) (name : Str) (meta : ContainerMeta) (k : Kept H)
      → is_noticed saving ≡ true
      → load H name k ≡ some meta
      → meta.name ≡ name
      → Storable meta
      → IsLong (pid_of (container_get (start H saving name k).1.registry (some name)))
      → (start H saving name k).0 ≡ DbError.ok
      → AgreesWithPid name State.running (start H saving name k).1
  unfolding start
  start-Agrees saving name meta k noticed e named h pid ok =
      let (ok', e') = adopted_ok H name meta (start_adopted H saving name) k e ok in
      let k' : Kept H = record k {
        registry = (container_adopt (adopt_args meta) (H.time k.world) k.registry).1;
      } in
      let (rc, e'') = start_adopted_ok H saving name meta k' noticed ok' in
      let call = container_start H (some name) k'.registry k'.world in
      let new_pid = pid_of (container_get call.1 (some name)) in
      let fits : IsLong new_pid =
        subst (λ (q : Kept H). IsLong (pid_of (container_get q.registry (some name)))) (e' ∙ e'')
          pid in
      subst (AgreesWithPid name State.running) (sym (e' ∙ e'')) (
        written-AgreesWithPid name State.running (record meta { pid = new_pid; state = pos 1 })
          (after H call.1 call.2 k') (started_state H name k'.registry k'.world rc) refl refl named
          (restate h new_pid (pos 1) fits (omega arith)))

  -- A stop that answers kOk wrote metadata that tells the state of the record, STOPPED, unless the
  -- file failed unnoticed. The metadata was that of the name and fit for its file.
  pub stop-Agrees :
      (saving : Saving) (name : Str) (meta : ContainerMeta) (k : Kept H)
      → is_noticed saving ≡ true
      → load H name k ≡ some meta
      → meta.name ≡ name
      → Storable meta
      → (stop H saving name k).0 ≡ DbError.ok
      → Agrees name State.stopped (stop H saving name k).1
  unfolding stop
  stop-Agrees saving name meta k noticed e named h ok =
      let (ok', e') = adopted_ok H name meta (stop_adopted H saving name) k e ok in
      let k' : Kept H = record k {
        registry = (container_adopt (adopt_args meta) (H.time k.world) k.registry).1;
      } in
      let (rc, e'') = stop_adopted_ok H saving name meta k' noticed ok' in
      let call = container_stop H (some name) k'.registry k'.world in
      subst (Agrees name State.stopped) (sym (e' ∙ e'')) (
        written-Agrees name State.stopped (record meta { pid = minus_one; state = pos 2 })
          (after H call.1 call.2 k') (stopped_state H name k'.registry k'.world rc) refl named
          (restate h minus_one (pos 2) (omega arith) (omega arith)))

  -- While the metadata of a name tells RUNNING, as after a start, its database is not opened; while
  -- it tells another state, it is not refused but for a bad name.
  open_refused-Agrees :
      (name : Str) (state : State) (k : Kept H)
      → Agrees name state k
      → is_valid_name name ≡ true
      → (open_refused H name k ≡ some DbError.bad_state) ↔ (state ≡ State.running)
  unfolding open_refused
  open_refused-Agrees name state k a valid =
      rw (open_refused, valid, a.kept, a.file_state) (running_iff state)
