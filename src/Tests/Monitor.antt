-- ===== src/Tests/Monitor.antt =====
-- The readers of one container at a concrete registry and disk, and their theorems there.
use nexus_db.Prelude.{
  ◌≡◌, false, true, [], ◌∷◌, Option, none, some, Str, codes, if◌then◌else◌, str_eq,
}
use nexus_db.Container.Types.{Container, is_deleted}
use nexus_db.Container.Registry.{Registry, zero_container, container_get}
use nexus_db.Bridge.Monitor.{no_snapshot, bridge_read_container}
use nexus_db.Bridge.Monitor.Pipeline.{Outcome, Measured, bridge_read_container-Measured}
use nexus_db.Tests.Fixed.{fixed}
use nexus_db.Tests.Disk.{disk}

abbrev files : Str → Option Str
files path =
    if str_eq path (codes "/c/memory.current")
    then some (codes "500\n")
    else if str_eq path (codes "/c/memory.max")
    then some (codes "1000\n")
    else none

abbrev web : Container
web = record zero_container { name = codes "web"; cgroup_path = codes "/c" }

abbrev registry : Registry
registry = record { slots = record { in_use = true; c = web } ∷ []; next_id = 2 }

bridge_read_container-Measured_example :
    (let result =
        bridge_read_container fixed disk registry
          (some (codes "web"))
          (no_snapshot fixed disk)
          files in
      Outcome fixed disk files (no_snapshot fixed disk) result (
        (c : Container) × (container_get registry (some (codes "web")) ≡ some c)
        × (is_deleted c.state ≡ false)
        × Measured fixed disk files c.cgroup_path result.1))
bridge_read_container-Measured_example =
    bridge_read_container-Measured fixed disk files registry (some (codes "web"))
      (no_snapshot fixed disk)
