-- ===== src/Namespace.antt =====
-- include/container/namespace.h and src/container/namespace.c, the Linux branches: which clone
-- flags a configuration asks for, and what the child configures before it executes.
pub mod Flags
use Prim.Native.Nat.{bit_or}
use nexus_db.Prelude.{
  ℕ, Bool, true, false, ◌&&◌, ◌||◌, not, Option, none, some, ◌==◌, if◌then◌else◌, Str, codes,
  String, str_eq, length,
}
use nexus_db.Rc.{Rc, is_ok}

-- The `int isolate_*` fields are read only as truth values.
pub record NamespaceConfig : Type 0 where
  pub isolate_pid : Bool
  pub isolate_mount : Bool
  pub isolate_net : Bool
  pub isolate_uts : Bool
  pub isolate_ipc : Bool
  pub hostname : Option Str

unfoldable pub namespace_config_default : Option Str → NamespaceConfig
namespace_config_default container_name = record {
  isolate_pid = true;
  isolate_mount = true;
  isolate_net = true;
  isolate_uts = true;
  isolate_ipc = true;
  hostname = container_name;
}

-- <sched.h>
abbrev pub clone_newns : ℕ
clone_newns = 0x00020000

abbrev pub clone_newuts : ℕ
clone_newuts = 0x04000000

abbrev pub clone_newipc : ℕ
clone_newipc = 0x08000000

abbrev pub clone_newpid : ℕ
clone_newpid = 0x20000000

abbrev pub clone_newnet : ℕ
clone_newnet = 0x40000000

-- `if (wanted) flags |= flag;`
abbrev pub add_flag : Bool → ℕ → ℕ → ℕ
add_flag wanted flag flags = if wanted then bit_or flags flag else flags

unfoldable pub namespace_clone_flags : Option NamespaceConfig → ℕ
namespace_clone_flags none = 0
namespace_clone_flags (some cfg) = add_flag cfg.isolate_ipc clone_newipc (
    add_flag cfg.isolate_uts clone_newuts (
      add_flag cfg.isolate_net clone_newnet
        (add_flag cfg.isolate_mount clone_newns (add_flag cfg.isolate_pid clone_newpid 0))))

-- The system calls of namespace.c, over a state `World` of the kernel that this file cannot see.
-- The result is `true` where the call returns 0.
pub record NamespaceCalls (World : Type 0) : Type 0 where
  pub sethostname : Str → ℕ → World → Bool × World
  pub mount_private : World → Bool × World
  pub unshare : ℕ → World → Bool × World

abbrev pub has_text : Option Str → Bool
has_text none = false
has_text (some s) = not (length s == 0)

abbrev pub text_of : Option Str → Str
text_of none = codes ""
text_of (some s) = s

module _ {World : Type 0} (calls : NamespaceCalls World) where
  -- The second half of `namespace_configure_child`.
  unfoldable pub make_private : NamespaceConfig → World → Rc × World
  make_private cfg w =
      if cfg.isolate_mount
      then (let (done, w') = calls.mount_private w in (if done then Rc.ok else Rc.process, w'))
      else (Rc.ok, w)

  unfoldable pub namespace_configure_child : Option NamespaceConfig → World → Rc × World
  unfolding make_private
  namespace_configure_child none w = (Rc.ok, w)
  namespace_configure_child (some cfg) w =
      if cfg.isolate_uts && has_text cfg.hostname
      then (let (done, w') =
            calls.sethostname (text_of cfg.hostname) (length (text_of cfg.hostname)) w in
          if done then make_private cfg w' else (Rc.process, w'))
      else make_private cfg w

  -- `ns_child_prepare` of container.c with `child_arg`, where `errno` is that of the calls: 0, or
  -- what is reported to the parent, EPERM where there is no `errno`.
  unfoldable pub ns_child_prepare : (World → ℕ) → NamespaceConfig → World → ℕ × World
  ns_child_prepare errno cfg w =
      let (rc, w') = namespace_configure_child (some cfg) w in
      if is_ok rc then (0, w') else if errno w' == 0 then (1, w') else (errno w', w')

  unfoldable pub namespace_apply : Option NamespaceConfig → World → Rc × World
  unfolding namespace_configure_child namespace_clone_flags
  namespace_apply none w = (Rc.invalid, w)
  namespace_apply (some cfg) w =
      if namespace_clone_flags (some cfg) == 0
      then namespace_configure_child (some cfg) w
      else (let (done, w') = calls.unshare (namespace_clone_flags (some cfg)) w in
          if done then namespace_configure_child (some cfg) w' else (Rc.process, w'))
