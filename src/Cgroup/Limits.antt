-- ===== src/Cgroup/Limits.antt =====
-- What `cgroup_set_limits` writes, `cgroup_read_metrics` reads.
use nexus_db.Prelude.{Option, Str}
use nexus_db.Rc.{Rc}
use nexus_db.Double.{Double}
use nexus_db.Os.{Os}
use nexus_db.Cgroup.{text_of, build_child_path}
use nexus_db.Cgroup.Files.{KeepsLimits}

module _ (os : Os) (keeps : KeepsLimits os) where
  open os use {World, read}

  abbrev file : Option Str → Str → Str
  file dir name = build_child_path (text_of dir) name
