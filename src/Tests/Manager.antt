-- ===== src/Tests/Manager.antt =====
-- A container that was created by one process and is started by another.
use nexus_db.Prelude.{
  ◌≡◌, refl, ap, sym, subst, none, some, if◌then◌else◌, Str, str_eq, codes, pos, arith,
}
use nexus_db.Db.Status.{DbError}
use nexus_db.Container.Types.{State}
use nexus_db.Container.Registry.{
  initial, container_get, find_slot, free_slot, claim_slot, name_valid, with_slot,
}
use nexus_db.Manager.Meta.{
  ContainerMeta, new_meta, load_meta, save_meta, read_lines, lines, read_line, split_eq, set_key,
}
use nexus_db.Prelude.Scan.Long.{IsLong}
use nexus_db.Prelude.Numerals.{show_ulong, show_long}
use nexus_db.Prelude.Scan.{strtoul, strtol}
use nexus_db.Manager.Meta.RoundTrip.{Storable, load_meta-save_meta}
use nexus_db.Manager.Lifecycle.{
  pid_of, Saving, Kept, load, save, adopt, is_valid_name, start, start_adopted,
}
use nexus_db.Container.Adopt.{container_adopt, adopt_rejects, adopted_container}
use nexus_db.Container.Launch.{
  container_start, start_slot, launch, attach_and_release, workload_spec, gate_config,
  container_ns_requested,
}
use nexus_db.Manager.Lifecycle.Agrees.{AgreesWithPid, start-Agrees}
use nexus_db.Tests.Toy.{toy}

abbrev web : Str
web = codes "web"

abbrev web_meta : ContainerMeta
web_meta = record (new_meta web) {
  id = codes "c000001";
  memory = 1048576;
  cpu = 50;
  engine = codes "/bin/db=1";
  cgroup = codes "/cg/web";
}

web_meta-Storable : Storable web_meta
web_meta-Storable = record {
  name = omega arith;
  id = omega arith;
  engine = omega arith;
  cgroup = omega arith;
  memory = omega arith;
  cpu = omega arith;
  pid = omega arith;
  state = omega arith;
}

load_meta-save_meta_example : load_meta web (save_meta web_meta) ≡ web_meta
load_meta-save_meta_example = load_meta-save_meta web web_meta web_meta-Storable

-- A line break in the path of the engine lifts the memory limit.
newline_lifts_the_limit :
    (load_meta web (save_meta (record web_meta { engine = codes "/bin/db\nmemory=0" }))).memory ≡ 0
unfolding load_meta save_meta read_lines lines show_ulong show_long read_line split_eq set_key
    strtoul strtol
newline_lifts_the_limit = refl

abbrev kept : Kept toy
kept = record {
  registry = initial;
  world = 4;
  files = λ name. if str_eq name web then some (save_meta web_meta) else none;
}

web_is_kept : load toy web kept ≡ some web_meta
unfolding load
web_is_kept = ap (λ m. some m) (load_meta-save_meta web web_meta web_meta-Storable)

started_pid : pid_of (container_get (start toy Saving.whole web kept).1.registry (some web)) ≡ pos 5
unfolding start container_get start_adopted save adopt is_valid_name load container_adopt
    adopt_rejects container_start with_slot start_slot workload_spec launch gate_config
    container_ns_requested attach_and_release initial find_slot claim_slot free_slot name_valid
    adopted_container load_meta save_meta read_lines lines show_ulong show_long read_line split_eq
    set_key strtoul strtol
started_pid = refl

web_starts : (start toy Saving.whole web kept).0 ≡ DbError.ok
unfolding start start_adopted save adopt is_valid_name load container_adopt adopt_rejects
    container_start with_slot start_slot workload_spec launch gate_config container_ns_requested
    attach_and_release initial find_slot claim_slot free_slot name_valid adopted_container load_meta
    save_meta read_lines lines show_ulong show_long read_line split_eq set_key strtoul strtol
web_starts = refl

web_pid : IsLong (pid_of (container_get (start toy Saving.whole web kept).1.registry (some web)))
web_pid = subst IsLong (sym started_pid) (omega arith)

-- On a full disk a start answers kOk, and the container is gone for the next process but for its
-- name.
full_disk_loses_the_metadata :
    let (code, k) = start toy (Saving.unnoticed 0) web kept in
    (code ≡ DbError.ok) × (load toy web k ≡ some (new_meta web))
unfolding start start_adopted save adopt is_valid_name load container_adopt adopt_rejects
    container_start with_slot start_slot workload_spec launch gate_config container_ns_requested
    attach_and_release initial find_slot claim_slot free_slot name_valid adopted_container load_meta
    save_meta read_lines lines show_ulong show_long read_line split_eq set_key strtoul strtol
full_disk_loses_the_metadata = (refl, refl)

start-Agrees_example : AgreesWithPid toy web State.running (start toy Saving.whole web kept).1
start-Agrees_example =
    start-Agrees toy Saving.whole web web_meta kept refl web_is_kept refl web_meta-Storable web_pid
      web_starts
