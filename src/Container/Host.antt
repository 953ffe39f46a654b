-- ===== src/Container/Host.antt =====
-- What container.c calls: the functions of cgroup.c and process.c, `getenv` and `time`. The state
-- that they read and change (the file system, the processes, the cgroup root) is a `World`.
use nexus_db.Prelude.{ℕ, ℤ, Bool, Option, Str, List}
use nexus_db.Rc.{Rc}
use nexus_db.Namespace.{NamespaceConfig}
use nexus_db.Container.Types.{CgroupMetrics}

-- `process_exec_t`. The array `argv` is without its final NULL.
pub record ProcessExec : Type 0 where
  pub path : Str
  pub argv : List Str
  pub cwd : Option Str

-- `process_gate_config_t`. The only `child_prepare` that container.c passes is
-- `ns_child_prepare`, with `child_arg` its configuration.
pub record GateConfig : Type 0 where
  pub clone_flags : ℕ
  pub child_arg : NamespaceConfig

-- `process_is_alive` only reads. `process_stop` gives `true` for 0 and `false` for -1. The call
-- of `cgroup_create` gives the code and what stands in `out_path`.
pub record Host (F : Type 0) : Type 1 where
  pub World : Type 0
  pub Gate : Type 0
  pub cgroup_init : Option Str → World → Rc × World
  pub cgroup_create : Str → ℕ → World → Rc × Str × World
  pub cgroup_set_limits : Str → ℕ → ℕ → World → Rc × World
  pub cgroup_attach : Str → ℤ → World → Rc × World
  pub cgroup_read_metrics : Str → World → Rc × CgroupMetrics F × World
  pub cgroup_destroy : Str → World → Rc × World
  pub process_is_alive : ℤ → World → Bool
  pub process_stop : ℤ → World → Bool × World
  pub process_spawn_gated : ProcessExec → Option GateConfig → World → ℤ × Gate × World
  pub process_gate_release : Gate → World → ℤ × World
  pub process_gate_abort : Gate → World → World
  pub getenv : Str → World → Option Str
  pub time : World → ℤ
