-- ===== src/Container/Types.antt =====
-- The records of include/container/container.h and of include/container/cgroup.h.
use nexus_db.Prelude.{ℕ, ℤ, Bool, true, false, Str}

abbrev pub name_max : ℕ
name_max = 64

abbrev pub id_max : ℕ
id_max = 32

abbrev pub path_max : ℕ
path_max = 256

pub data State : Type 0 where
  created running stopped deleted : State

abbrev pub is_created : State → Bool
is_created State.created = true
is_created _ = false

abbrev pub is_running : State → Bool
is_running State.running = true
is_running _ = false

abbrev pub is_stopped : State → Bool
is_stopped State.stopped = true
is_stopped _ = false

abbrev pub is_deleted : State → Bool
is_deleted State.deleted = true
is_deleted _ = false

-- A char array is the string that it holds; the `ns_*` integers are only 0 and 1.
pub record Container : Type 0 where
  pub name : Str
  pub id : Str
  pub state : State
  pub pid : ℤ
  pub memory_bytes : ℕ
  pub cpu_percent : ℕ
  pub cgroup_path : Str
  pub db_engine : Str
  pub created_at : ℤ
  pub ns_pid : Bool
  pub ns_mount : Bool
  pub ns_net : Bool
  pub ns_uts : Bool
  pub ns_ipc : Bool
  pub ns_hostname : Str

-- `F` is the type of `double`.
pub record CgroupMetrics (F : Type 0) : Type 0 where
  pub memory_current : ℕ
  pub memory_max : ℕ
  pub cpu_usage_usec : ℕ
  pub memory_pressure : F
