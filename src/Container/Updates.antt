-- ===== src/Container/Updates.antt =====
-- The records that a call of the lifecycle may put in place of an old one.
use nexus_db.Prelude.{ℕ, ◌≡◌, Bool, true, false, Option, some, Str, ℤ, is_pos, minus_one, ◌||◌}
use nexus_db.Container.Types.{State, is_created, is_running, is_stopped, Container}
use nexus_db.Container.Registry.{Registry, container_get}
use nexus_db.Container.Create.{CreateArgs, is_live_at, new_container, create_rejects}
use nexus_db.Container.Adopt.{AdoptArgs, adopt_rejects, state_of_int, adopted_container}
use nexus_db.Container.Calls.{Call, create, adopt, start, stop, delete}

-- The records that a call may put in place of an old one.
-- `done` says whether the call reports success.
pub data Update (r : Registry) (old new : Container) (done : Bool) : Call → Type 0 where
  created :
      {a : CreateArgs} (path : Str) (id_number : ℕ) (now : ℤ)
      → create_rejects a ≡ false
      → is_live_at r a.name ≡ false
      → new ≡ new_container a path id_number now
      → done ≡ true
      → Update r old new done (create a)
  adopted :
      {a : AdoptArgs} (state : State) (now : ℤ)
      → adopt_rejects a ≡ false
      → state_of_int a.state ≡ some state
      → new ≡ adopted_container a state now
      → done ≡ true
      → Update r old new done (adopt a)
  started :
      {name : Option Str} (pid : ℤ)
      → container_get r name ≡ some old
      → (is_created old.state || is_stopped old.state) ≡ true
      → is_pos pid ≡ true
      → new ≡ record old { pid = pid; state = State.running }
      → done ≡ true
      → Update r old new done (start name)
  start_failed :
      {name : Option Str}
      → container_get r name ≡ some old
      → (is_created old.state || is_stopped old.state) ≡ true
      → new ≡ record old { pid = minus_one }
      → done ≡ false
      → Update r old new done (start name)
  stopped :
      {name : Option Str}
      → container_get r name ≡ some old
      → is_running old.state ≡ true
      → new ≡ record old { pid = minus_one; state = State.stopped }
      → done ≡ true
      → Update r old new done (stop name)
  deleted :
      {name : Option Str}
      → container_get r name ≡ some old
      → (is_created old.state || is_stopped old.state) ≡ true
      → new ≡ record old { pid = minus_one; state = State.deleted }
      → done ≡ true
      → Update r old new done (delete name)
  delete_failed :
      {name : Option Str}
      → container_get r name ≡ some old
      → (is_created old.state || is_stopped old.state) ≡ true
      → new ≡ record old { pid = minus_one }
      → done ≡ false
      → Update r old new done (delete name)
