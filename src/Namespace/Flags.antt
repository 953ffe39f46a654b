-- ===== src/Namespace/Flags.antt =====
-- The clone flags of a namespace configuration (`namespace_clone_flags`).
use Prim.Native.Nat.{bit_and}
use nexus_db.Prelude.{ℕ, ◌≡◌, Bool, not, ◌||◌, some, ◌==◌, arith}
use nexus_db.Namespace.{
  NamespaceConfig, namespace_clone_flags, clone_newns, clone_newuts, clone_newipc, clone_newpid,
  clone_newnet,
}

-- Whether a flag is among the flags.
abbrev pub has_flag : ℕ → ℕ → Bool
has_flag flags flag = not (bit_and flags flag == 0)

abbrev pub isolates : NamespaceConfig → Bool
isolates cfg =
    cfg.isolate_pid || cfg.isolate_mount || cfg.isolate_net || cfg.isolate_uts || cfg.isolate_ipc

abbrev pub Exact : NamespaceConfig → ℕ → Type 0
Exact cfg flags =
    (has_flag flags clone_newpid ≡ cfg.isolate_pid)
    × (has_flag flags clone_newns ≡ cfg.isolate_mount)
    × (has_flag flags clone_newnet ≡ cfg.isolate_net)
    × (has_flag flags clone_newuts ≡ cfg.isolate_uts)
    × (has_flag flags clone_newipc ≡ cfg.isolate_ipc)
    × (not (flags == 0) ≡ isolates cfg)

-- The mask has the clone flag of a namespace exactly when the configuration isolates that
-- namespace, for each of the five, and it is 0 exactly when the configuration isolates nothing.
pub namespace_clone_flags-Exact :
    (cfg : NamespaceConfig) → Exact cfg (namespace_clone_flags (some cfg))
unfolding namespace_clone_flags
namespace_clone_flags-Exact cfg = ground arith
