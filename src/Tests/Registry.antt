-- ===== src/Tests/Registry.antt =====
-- The container registry: a run of its lifecycle, and its theorems at concrete data.
use nexus_db.Prelude.{
  ◌≡◌, refl, false, Option, none, some, List, [], ◌∷◌, arith, Str, codes, ℤ, pos, minus_one,
}
use nexus_db.Rc.{Rc}
use nexus_db.Namespace.{namespace_clone_flags, namespace_config_default}
use nexus_db.Container.Types.{State, Container}
use nexus_db.Container.Registry.{
  Registry, initial, name_valid, find_slot, free_slot, claim_slot, container_get, with_slot,
}
use nexus_db.Container.Create.{
  CreateArgs, container_create_ex, create_rejects, is_live_at, create_in, provision, new_container,
}
use nexus_db.Container.Launch.{
  container_start, start_slot, launch, attach_and_release, workload_spec, gate_config,
  container_ns_requested,
}
use nexus_db.Container.Calls.{Call, create, start, stop, delete, perform, run}
use nexus_db.Container.Machine.{Step, status, perform-Step}
use nexus_db.Container.Host.{ProcessExec}
use nexus_db.Container.Launch.Order.{root_env, Launched, start_ok}
use nexus_db.Container.Adopt.{container_adopt}
use nexus_db.Container.Restore.{persisted, adopt-persisted}
use nexus_db.Namespace.Flags.{Exact, namespace_clone_flags-Exact}
use nexus_db.Container.Failure.{KeptBut, perform_failed}
use nexus_db.Container.WellFormed.{WellFormed, run-initial-WellFormed}
use nexus_db.Container.Pids.{PidMatches, run-PidMatches}
use nexus_db.Prelude.Numerals.{show_ulong6}
use nexus_db.Tests.Toy.{toy}

abbrev web : Option Str
web = some (codes "web")

abbrev db : Option Str
db = some (codes "db-1")

abbrev web_args : CreateArgs
web_args = record {
  name = web;
  memory_bytes = 1048576;
  cpu_percent = 50;
  db_engine = none;
  namespaces = none;
}

-- The registry after the creation of `web`.
with_web : Registry
unfolding perform container_create_ex create_rejects name_valid is_live_at find_slot claim_slot
    free_slot create_in provision new_container initial show_ulong6
with_web = (perform toy (create web_args) initial 0).1

web_created : status with_web web ≡ some State.created
unfolding with_web status container_get
web_created = refl

-- Started at an even world, the child has an odd pid and can be attached.
perform-Step_example :
    Step
      (start web)
      (perform toy (start web) with_web 4).0
      (status with_web)
      (status (perform toy (start web) with_web 4).1)
perform-Step_example = perform-Step toy (start web) with_web 4

web_runs : status (perform toy (start web) with_web 4).1 web ≡ some State.running
unfolding with_web status container_get perform container_start with_slot start_slot workload_spec
    launch gate_config container_ns_requested attach_and_release
web_runs = refl

run-initial-WellFormed_example :
    WellFormed (run toy (create web_args ∷ start web ∷ delete web ∷ stop web ∷ []) initial 0).0
run-initial-WellFormed_example =
    run-initial-WellFormed toy (create web_args ∷ start web ∷ delete web ∷ stop web ∷ []) 0

perform_failed_example :
    KeptBut
      (start web)
      web
      (container_get with_web web)
      (container_get (perform toy (start web) with_web 5).1 web)
unfolding with_web perform container_start with_slot start_slot workload_spec launch gate_config
    container_ns_requested attach_and_release
perform_failed_example = perform_failed toy (start web) with_web 5 web (λ e. cc e)

-- The first start fails to attach its child, the second succeeds.
abbrev history : List Call
history = create web_args ∷ start web ∷ start web ∷ []

abbrev web_container : State → ℤ → Container
web_container state pid = record {
  name = codes "web";
  id = codes "nx-000001";
  state = state;
  pid = pid;
  memory_bytes = 1048576;
  cpu_percent = 50;
  cgroup_path = codes "/cg/web";
  db_engine = [];
  created_at = pos 3;
  ns_pid = false;
  ns_mount = false;
  ns_net = false;
  ns_uts = false;
  ns_ipc = false;
  ns_hostname = [];
}

web_after_history :
    container_get (run toy history initial 0).0 web ≡ some (web_container State.running (pos 7))
unfolding with_web run container_get container_start with_slot start_slot workload_spec launch
    gate_config container_ns_requested attach_and_release
web_after_history = refl

run-PidMatches_example : PidMatches (web_container State.running (pos 7))
run-PidMatches_example = run-PidMatches toy history 0 web _ (tt, (tt, (tt, tt))) web_after_history

web_in_with_web : container_get with_web web ≡ some (web_container State.created minus_one)
unfolding with_web container_get
web_in_with_web = refl

abbrev placeholder : ProcessExec
placeholder = record { path = codes "sleep"; argv = codes "sleep" ∷ codes "3600" ∷ []; cwd = none }

started_web : (container_start toy web with_web 4).0 ≡ Rc.ok
unfolding with_web container_start with_slot start_slot workload_spec launch gate_config
    container_ns_requested attach_and_release
started_web = refl

start_ok_example :
    (c : Container) × (spec : ProcessExec) × (container_get with_web web ≡ some c)
    × (workload_spec c (root_env toy 4) ≡ some spec)
    × Launched toy c spec 4 (container_start toy web with_web 4).2
    × (container_get (container_start toy web with_web 4).1 web
        ≡ some (record c {
          pid = (toy.process_spawn_gated spec (gate_config c) 4).0;
          state = State.running;
        }))
start_ok_example = start_ok toy web with_web 4 started_web

adopt-persisted_example :
    let c = web_container State.stopped minus_one in
    ((container_adopt (persisted c) (pos 9) initial).0 ≡ Rc.ok)
    × (container_get (container_adopt (persisted c) (pos 9) initial).1 web
        ≡ some (record c { created_at = pos 9 }))
unfolding claim_slot find_slot free_slot initial
adopt-persisted_example =
    adopt-persisted (web_container State.stopped minus_one) (pos 9) initial 0
      (unfold name_valid in
        record {
          named = refl;
          id = omega arith;
          cpu = omega arith;
          cgroup_path = omega arith;
          db_engine = omega arith;
          ns_hostname = omega arith;
        })
      refl

namespace_clone_flags-Exact_example :
    let cfg = namespace_config_default web in Exact cfg (namespace_clone_flags (some cfg))
namespace_clone_flags-Exact_example = namespace_clone_flags-Exact (namespace_config_default web)
