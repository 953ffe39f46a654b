-- ===== src/Manager/Lifecycle.antt =====
-- The container operations of src/manager/manager.cpp over the registry of the process and the
-- metadata files, a text for each name. What the file system does in a call is an argument.
pub mod Outcomes
pub mod Agrees
use nexus_db.Prelude.{
  ℕ, Bool, true, false, not, ◌&&◌, ◌||◌, Option, none, some, List, [], ◌∷◌, ltb, leb, ◌==◌,
  if◌then◌else◌, Str, str_eq, is_alnum, length, take, ℤ, pos, negsuc, minus_one,
}
use mathlib.Core.Option
use nexus_db.Rc.{Rc, is_ok}
use nexus_db.Db.Status.{DbError}
use nexus_db.Db.Status
use nexus_db.Container.Types.{State, Container, name_max}
use nexus_db.Container.Host.{Host}
use nexus_db.Container.Registry.{Registry, container_get}
use nexus_db.Container.Create.{CreateArgs, container_create_ex}
use nexus_db.Container.Adopt.{AdoptArgs, container_adopt}
use nexus_db.Container.Launch.{container_start}
use nexus_db.Container.Teardown.{container_stop, container_delete}
use nexus_db.Container.Report.{container_status}
use nexus_db.Manager.Meta.{ContainerMeta, new_meta, load_meta, save_meta}

-- `MapContainerRc`
abbrev pub map_container_rc : Rc → DbError
map_container_rc Rc.ok = DbError.ok
map_container_rc Rc.invalid = DbError.invalid_argument
map_container_rc Rc.not_found = DbError.not_found
map_container_rc Rc.nomem = DbError.out_of_memory
map_container_rc Rc.process = DbError.io_error
map_container_rc _ = DbError.bad_state

abbrev name_chars : Str → Bool
name_chars [] = true
name_chars (c ∷ s) = (is_alnum c || c == b'_' || c == b'-') && name_chars s

-- `Manager::IsValidName`
unfoldable pub is_valid_name : Str → Bool
is_valid_name name =
    if length name == 0 || leb name_max (length name) then false else name_chars name

-- What a write of a metadata file comes to: it is written, it cannot be opened, or it ends behind
-- some of its bytes. The stream keeps a short text until it is closed, so that its failure is not
-- noticed.
pub data Saving : Type 0 where
  whole : Saving
  unopened : Saving
  cut : ℕ → Saving
  unnoticed : ℕ → Saving

abbrev pub is_noticed : Saving → Bool
is_noticed (unnoticed n) = false
is_noticed _ = true

-- `val == NEXUS_RUNNING`
abbrev pub is_running_int : ℤ → Bool
is_running_int (pos n) = n == 1
is_running_int (negsuc n) = false

abbrev pub nonempty : Str → Option Str
nonempty [] = none
nonempty (c ∷ s) = some (c ∷ s)

-- The arguments of `container_adopt` in `Adopt`.
abbrev pub adopt_args : ContainerMeta → AdoptArgs
adopt_args meta = record {
  name = some meta.name;
  id = some meta.id;
  memory_bytes = meta.memory;
  cpu_percent = meta.cpu;
  db_engine = some meta.engine;
  cgroup_path = some meta.cgroup;
  pid = meta.pid;
  state = meta.state;
}

abbrev pub create_args : Str → ℕ → ℕ → Str → CreateArgs
create_args name memory cpu engine = record {
  name = some name;
  memory_bytes = memory;
  cpu_percent = cpu;
  db_engine = nonempty engine;
  namespaces = none;
}

-- The metadata of a new container, from its record if there is one.
abbrev pub created_meta : Str → ℕ → ℕ → Str → Option Container → ContainerMeta
created_meta name memory cpu engine none = record (new_meta name) {
  memory = memory;
  cpu = cpu;
  engine = engine;
}
created_meta name memory cpu engine (some c) = record (new_meta name) {
  memory = memory;
  cpu = cpu;
  engine = engine;
  id = c.id;
  cgroup = c.cgroup_path;
}

abbrev pub pid_of : Option Container → ℤ
pid_of none = minus_one
pid_of (some c) = c.pid

module _ {F : Type 0} (H : Host F) where
  open H use {World, time}

  pub record Kept : Type 0 where
    pub registry : Registry
    pub world : World
    pub files : Str → Option Str

  abbrev pub with_file : Str → Option Str → Kept → Kept
  with_file name text k = record k {
    files = λ other. if str_eq other name then text else k.files other;
  }

  -- `LoadMeta`
  unfoldable pub load : Str → Kept → Option ContainerMeta
  load name k = Option.map (load_meta name) (k.files name)

  -- `SaveMeta`
  unfoldable pub save : Saving → ContainerMeta → Kept → DbError × Kept
  save whole meta k = (DbError.ok, with_file meta.name (some (save_meta meta)) k)
  save unopened meta k = (DbError.io_error, k)
  save (cut n) meta k = (DbError.io_error, with_file meta.name (some (take n (save_meta meta))) k)
  save (unnoticed n) meta k = (DbError.ok, with_file meta.name (some (take n (save_meta meta))) k)

  -- `Adopt`
  unfoldable pub adopt : Str → Kept → DbError × ContainerMeta × Kept
  adopt name k = elim (load name k) [
    | none ↦ (DbError.not_found, new_meta name, k)
    | some meta ↦
        let (rc, r) = container_adopt (adopt_args meta) (time k.world) k.registry in
        (map_container_rc rc, meta, record k { registry = r })
  ]

  -- The registry and the world after a call of the runtime.
  abbrev pub after : Registry → World → Kept → Kept
  after r w k = record k { registry = r; world = w }

  -- `ContainerCreate`, where `Init` makes the directory or fails.
  unfoldable pub create : Bool → Saving → Str → ℕ → ℕ → Str → Kept → DbError × Kept
  create init saving name memory cpu engine k =
      let (rc, r, w) =
        container_create_ex H (create_args name memory cpu engine) k.registry k.world in
      let meta = created_meta name memory cpu engine (container_get r (some name)) in
      if not (is_valid_name name) then (DbError.invalid_argument, k) else elim (load name k) [
        | some existing ↦ (DbError.bad_state, k)
        | none ↦
            if not init
            then (DbError.io_error, k)
            else if not (is_ok rc)
            then (map_container_rc rc, after r w k)
            else save saving meta (after r w k)
      ]

  -- The part of `ContainerStart` behind `Adopt`.
  unfoldable pub start_adopted : Saving → Str → ContainerMeta → Kept → DbError × Kept
  start_adopted saving name meta k =
      let (rc, r, w) = container_start H (some name) k.registry k.world in
      let started = record meta { pid = pid_of (container_get r (some name)); state = pos 1 } in
      if is_running_int meta.state
      then (DbError.bad_state, k)
      else if not (is_ok rc)
      then (map_container_rc rc, after r w k)
      else save saving started (after r w k)

  -- The part of `ContainerStop` behind `Adopt`.
  unfoldable pub stop_adopted : Saving → Str → ContainerMeta → Kept → DbError × Kept
  stop_adopted saving name meta k =
      let (rc, r, w) = container_stop H (some name) k.registry k.world in
      if not (is_ok rc)
      then (map_container_rc rc, after r w k)
      else save saving (record meta { pid = minus_one; state = pos 2 }) (after r w k)

  -- The part of `ContainerDelete` behind `Adopt`. `RemoveMeta` does not report a file that it
  -- cannot remove.
  unfoldable pub delete_adopted : Bool → Str → ContainerMeta → Kept → DbError × Kept
  delete_adopted removes name meta k =
      let (rc, r, w) = container_delete H (some name) k.registry k.world in
      if not (is_ok rc)
      then (map_container_rc rc, after r w k)
      else if removes
      then (DbError.ok, with_file name none (after r w k))
      else (DbError.ok, after r w k)

  -- An operation on a name that is valid and can be adopted.
  abbrev pub adopted_with : Str → (ContainerMeta → Kept → DbError × Kept) → Kept → DbError × Kept
  adopted_with name op k =
      let (code, meta, k') = adopt name k in
      if not (is_valid_name name)
      then (DbError.invalid_argument, k)
      else if Status.is_ok code
      then op meta k'
      else (code, k')

  -- `ContainerStart`
  unfoldable pub start : Saving → Str → Kept → DbError × Kept
  start saving name k = adopted_with name (start_adopted saving name) k

  -- `ContainerStop`
  unfoldable pub stop : Saving → Str → Kept → DbError × Kept
  stop saving name k = adopted_with name (stop_adopted saving name) k

  -- `ContainerDelete`
  unfoldable pub delete : Bool → Str → Kept → DbError × Kept
  delete removes name k = adopted_with name (delete_adopted removes name) k

  -- `ContainerStatus` into a string that is not NULL, which counts where the code is kOk.
  unfoldable pub status : Str → Kept → DbError × Option Str × Kept
  status name k =
      let (code, meta, k') = adopt name k in
      let (rc, text) = container_status k'.registry (some name) (some 512) in
      if not (is_valid_name name)
      then (DbError.invalid_argument, none, k)
      else if Status.is_ok code
      then (map_container_rc rc, text, k')
      else (code, none, k')

  -- The checks of `OpenDb` before the database is opened.
  unfoldable pub open_refused : Str → Kept → Option DbError
  open_refused name k =
      if not (is_valid_name name) then some DbError.invalid_argument else elim (load name k) [
        | none ↦ none
        | some meta ↦ if is_running_int meta.state then some DbError.bad_state else none
      ]
