-- ===== src/Container/Teardown.antt =====
-- `container_stop` and `container_delete`.
use nexus_db.Prelude.{ℕ, not, Option, if◌then◌else◌, Str, is_minus_one, minus_one}
use nexus_db.Rc.{Rc, is_ok}
use nexus_db.Container.Types.{State, is_running, is_deleted}
use nexus_db.Container.Host.{Host}
use nexus_db.Container.Registry.{Registry, with_slot, slot_at, write_container}

module _ {F : Type 0} (H : Host F) where
  open H use {World, cgroup_destroy, process_is_alive, process_stop}

  unfoldable pub stop_slot : ℕ → Registry → World → Rc × Registry × World
  stop_slot i r w =
      let c = (slot_at r.slots i).c in
      if not (is_running c.state)
      then (Rc.illegal_state, r, w)
      else if is_minus_one c.pid
      then (Rc.ok, write_container r i (record c { state = State.stopped }), w)
      else (let (done, w') = process_stop c.pid w in
          if done
          then (
            Rc.ok,
            write_container r i (record c { pid = minus_one; state = State.stopped }),
            w',
          )
          else (Rc.process, r, w'))

  unfoldable pub container_stop : Option Str → Registry → World → Rc × Registry × World
  container_stop name r w = with_slot name r w (λ i. stop_slot i r w)

  -- A recorded child that is alive is stopped; the result of the attempt is ignored.
  unfoldable pub stop_leftover : ℕ → Registry → World → World
  stop_leftover i r w =
      let pid = (slot_at r.slots i).c.pid in
      if is_minus_one pid then w else if process_is_alive pid w then (process_stop pid w).1 else w

  unfoldable pub delete_slot : ℕ → Registry → World → Rc × Registry × World
  delete_slot i r w =
      let c = (slot_at r.slots i).c in
      if is_running c.state
      then (Rc.illegal_state, r, w)
      else if is_deleted c.state
      then (Rc.illegal_state, r, w)
      else (let (gone, w') = cgroup_destroy c.cgroup_path (stop_leftover i r w) in
          if is_ok gone
          then (
            Rc.ok,
            write_container r i (record c { pid = minus_one; state = State.deleted }),
            w',
          )
          else (Rc.process, write_container r i (record c { pid = minus_one }), w'))

  unfoldable pub container_delete : Option Str → Registry → World → Rc × Registry × World
  container_delete name r w = with_slot name r w (λ i. delete_slot i r w)
