-- ===== src/Container/Restore.antt =====
-- A record that is read by `container_get`, persisted and adopted by another process.
use nexus_db.Prelude.{ℕ, ◌≡◌, refl, ◌∙◌, ap, false, some, arith, [], copy_into_self, ℤ, pos}
use mathlib.Core.Option.{some-injective}
use nexus_db.Rc.{Rc}
use nexus_db.Container.Types.{State, Container, id_max, path_max}
use nexus_db.Container.Registry.{Registry, claim_slot, container_get}
use nexus_db.Container.Registry.Found.{name_valid-copied}
use nexus_db.Container.WellFormed.{FitsRecord}
use nexus_db.Container.Adopt.{
  AdoptArgs, adopt_rejects, state_of_int, adopted_container, container_adopt,
}
use nexus_db.Container.Lookup.{container_get-written}

-- `(int)c->state`
abbrev pub int_of_state : State → ℤ
int_of_state State.created = pos 0
int_of_state State.running = pos 1
int_of_state State.stopped = pos 2
int_of_state State.deleted = pos 3

-- The arguments of `container_adopt` that carry a record over.
abbrev pub persisted : Container → AdoptArgs
persisted c = record {
  name = some c.name;
  id = some c.id;
  memory_bytes = c.memory_bytes;
  cpu_percent = c.cpu_percent;
  db_engine = some c.db_engine;
  cgroup_path = some c.cgroup_path;
  pid = c.pid;
  state = int_of_state c.state;
}

-- What `container_adopt` restores: all but the isolation; the time is that of the restoring.
abbrev pub restored : Container → ℤ → Container
restored c now = record c {
  created_at = now;
  ns_pid = false;
  ns_mount = false;
  ns_net = false;
  ns_uts = false;
  ns_ipc = false;
  ns_hostname = [];
}

state_round_trip : (s : State) → state_of_int (int_of_state s) ≡ some s
state_round_trip s = ground arith

accepts : (c : Container) → FitsRecord c → adopt_rejects (persisted c) ≡ false
unfolding adopt_rejects
accepts c f = ground (arith, state_round_trip c.state)

copies :
    (c : Container) (now : ℤ)
    → FitsRecord c
    → adopted_container (persisted c) c.state now ≡ restored c now
unfolding adopted_container
copies c now f = rw (
  some-injective _ _ (name_valid-copied (some c.name) f.named),
  copy_into_self id_max c.id f.id,
  copy_into_self path_max c.cgroup_path f.cgroup_path,
  copy_into_self path_max c.db_engine f.db_engine,
)

-- A record that fits its arrays, persisted and adopted where there is a slot for its name, is
-- found again under that name with every field but two kinds: `created_at` is the time of the
-- adoption, and all namespace isolation is off, whatever the record asked for.
pub adopt-persisted :
    (c : Container) (now : ℤ) (r : Registry) (i : ℕ)
    → FitsRecord c
    → claim_slot r.slots (some c.name) ≡ some i
    → ((container_adopt (persisted c) now r).0 ≡ Rc.ok)
      × (container_get (container_adopt (persisted c) now r).1 (some c.name)
          ≡ some (restored c now))
unfolding container_adopt
adopt-persisted c now r i f h =
    let r' = (container_adopt (persisted c) now r).1 in
    rw (accepts c f, state_round_trip c.state, h)
      (
        refl,
        container_get-written r _ (some c.name) i _ refl
              (ap some (ap (λ (k : Container). k.name) (copies c now f))) h refl
            ∙ ap some (copies c now f),
      )
