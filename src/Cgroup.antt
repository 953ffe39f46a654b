-- ===== src/Cgroup.antt =====
-- src/container/cgroup.c as compiled for Linux. The static `g_cgroup_root` is an argument and a
-- result; a result code comes with the machine's state.
pub mod Files
pub mod Metrics
pub mod Procs
pub mod Names
pub mod Limits
pub mod Drain
pub mod Usage
use nexus_db.Prelude.{
  ℕ, ◌+◌, ◌*◌, ◌/◌, ◌++◌, Bool, true, false, not, ◌&&◌, ◌||◌, Option, none, some, [], ◌∷◌, Str, ltb,
  leb, ◌==◌, if◌then◌else◌, codes, str_eq, length, copy_into, ℤ, is_pos, List,
}
use nexus_db.Prelude.Numerals.{show_ulong, show_long}
use nexus_db.Rc.{Rc}
use nexus_db.Os.{Os, Stat, enoent, eexist}
use nexus_db.Container.Types.{name_max, path_max}

-- `!path || path[0] == '\0'`
abbrev pub is_blank : Option Str → Bool
is_blank none = true
is_blank (some []) = true
is_blank (some (c ∷ s)) = false

abbrev pub text_of : Option Str → Str
text_of none = []
text_of (some s) = s

abbrev pub default_root : Str
default_root = codes "/sys/fs/cgroup/nexusdb"

-- `build_child_path`, into an array of NEXUS_PATH_MAX + 32 bytes.
unfoldable pub build_child_path : Str → Str → Str
build_child_path dir file = copy_into (path_max + 32) (dir ++ (b'/' ∷ file))

-- The loop of `cgroup_name_valid`.
abbrev pub no_separator : Str → Bool
no_separator [] = true
no_separator (ch ∷ name) = not (ch == b'/' || ch == b'\\') && no_separator name

unfoldable pub cgroup_name_valid : Option Str → Bool
cgroup_name_valid none = false
cgroup_name_valid (some name) =
    let n = length name in
    if n == 0 || leb name_max n
    then false
    else if str_eq name (codes ".") || str_eq name (codes "..")
    then false
    else no_separator name

-- The root that NEXUS_CGROUP_ROOT, or else the default, gives.
abbrev pub root_of_env : Option Str → Str
root_of_env env =
    if not (is_blank env) then copy_into path_max (text_of env) else copy_into path_max default_root

-- What is written to memory.max, from an array of 64 bytes.
unfoldable pub memory_value : ℕ → Str
memory_value memory_bytes =
    if ltb 0 memory_bytes
    then copy_into 64 (show_ulong memory_bytes)
    else copy_into 64 (codes "max")

-- What is written to cpu.max, from an array of 64 bytes.
unfoldable pub cpu_value : ℕ → Str
cpu_value cpu_percent =
    let period : ℕ = 100000 in
    let quota = period * cpu_percent / 100 in
    if ltb 0 cpu_percent && leb cpu_percent 100
    then copy_into 64 (show_ulong quota ++ (32 ∷ show_ulong period))
    else copy_into 64 (codes "max 100000")

module _ (os : Os) where
  open os use {World, fopen_write, fprintf, fclose, mkdir, rmdir, remove, stat, getenv}

  -- What `g_cgroup_root` holds after `get_root`, which is also its result.
  unfoldable pub get_root : Str → World → Str
  get_root [] w = root_of_env (getenv (codes "NEXUS_CGROUP_ROOT") w)
  get_root (c ∷ root) w = c ∷ root

  -- `true` for 0.
  unfoldable pub write_file_str : Str → Str → World → Bool × World
  write_file_str path value w =
      let (file, w1) = fopen_write path w in
      elim file [
        | none ↦ (false, w1)
        | some f ↦
            let (printed, w2) = fprintf f (value ++ codes "\n") w1 in
            let (closed, w3) = fclose f w2 in if not printed then (false, w3) else (closed, w3)
      ]

  abbrev is_dir : Stat → Bool
  is_dir Stat.directory = true
  is_dir _ = false

  -- `true` for 0. The second `stat` is the one that looks for a concurrent creator.
  unfoldable pub mkdir_usable : Str → World → Bool × World
  mkdir_usable path w =
      let (error, w1) = mkdir path w in
      elim error [
        | none ↦ (true, w1)
        | some errno ↦
            if errno == eexist && is_dir (stat path w1)
            then (true, w1)
            else if is_dir (stat path w1)
            then (true, w1)
            else (false, w1)
      ]

  -- `cgroup_init` behind the choice of the root.
  unfoldable pub init_root : Str → World → Rc × Str × World
  init_root root w =
      let (usable, w1) = mkdir_usable root w in
      let sub_path = root ++ codes "/cgroup.subtree_control" in
      if not usable
      then (Rc.process, root, w1)
      else if leb (path_max + 32) (length sub_path)
      then (Rc.invalid, root, w1)
      else (Rc.ok, root, (write_file_str sub_path (codes "+memory +cpu") w1).1)

  unfoldable pub cgroup_init : Option Str → Str → World → Rc × Str × World
  cgroup_init root_override root w =
      if not (is_blank root_override)
      then (if leb path_max (length (text_of root_override))
          then (Rc.invalid, root, w)
          else init_root (copy_into path_max (text_of root_override)) w)
      else init_root (get_root root w) w

  -- `cgroup_create` behind its first check, for a name and an array of `out_path_len` bytes. The
  -- text is what `out_path` holds afterwards, `none` where it was not written.
  unfoldable pub create_at : Str → ℕ → Str → World → Rc × Option Str × Str × World
  create_at name out_path_len root w =
      let dir = get_root root w in
      let path = dir ++ (b'/' ∷ name) in
      let (root_usable, w1) = mkdir_usable dir w in
      let (usable, w2) = mkdir_usable path w1 in
      if not root_usable
      then (Rc.process, none, dir, w1)
      else if leb out_path_len (length path)
      then (Rc.invalid, some (copy_into out_path_len path), dir, w1)
      else if not usable
      then (Rc.process, some path, dir, w2)
      else (Rc.ok, some path, dir, w2)

  -- `out` is the length of the array `out_path`, `none` where it is NULL.
  unfoldable pub cgroup_create : Option Str → Option ℕ → Str → World → Rc × Option Str × Str × World
  cgroup_create name none root w = (Rc.invalid, none, root, w)
  cgroup_create name (some out_path_len) root w =
      if not (cgroup_name_valid name) || out_path_len == 0
      then (Rc.invalid, none, root, w)
      else create_at (text_of name) out_path_len root w

  unfoldable pub cgroup_set_limits : Option Str → ℕ → ℕ → World → Rc × World
  cgroup_set_limits cgroup_path memory_bytes cpu_percent w =
      let dir = text_of cgroup_path in
      let memory_max = build_child_path dir (codes "memory.max") in
      let cpu_max = build_child_path dir (codes "cpu.max") in
      let (limited, w1) = write_file_str memory_max (memory_value memory_bytes) w in
      let (shared, w2) = write_file_str cpu_max (cpu_value cpu_percent) w1 in
      if is_blank cgroup_path
      then (Rc.invalid, w)
      else if ltb 100 cpu_percent
      then (Rc.invalid, w)
      else if not limited
      then (Rc.process, w1)
      else if not shared
      then (Rc.process, w2)
      else (Rc.ok, w2)

  unfoldable pub cgroup_attach : Option Str → ℤ → World → Rc × World
  cgroup_attach cgroup_path pid w =
      let procs = build_child_path (text_of cgroup_path) (codes "cgroup.procs") in
      let (written, w1) = write_file_str procs (copy_into 32 (show_long pid)) w in
      if is_blank cgroup_path || not (is_pos pid)
      then (Rc.invalid, w)
      else if not written
      then (Rc.process, w1)
      else (Rc.ok, w1)
