-- ===== src/Container/Calls.antt =====
-- The calls that change the registry, as one type, so that a history is a list of them.
use nexus_db.Prelude.{Option, List, [], ◌∷◌, Str}
use nexus_db.Rc.{Rc}
use nexus_db.Container.Host.{Host}
use nexus_db.Container.Registry.{Registry}
use nexus_db.Container.Create.{CreateArgs, container_create_ex}
use nexus_db.Container.Adopt.{AdoptArgs, container_adopt}
use nexus_db.Container.Launch.{container_start}
use nexus_db.Container.Teardown.{container_stop, container_delete}

pub data Call : Type 0 where
  create : CreateArgs → Call
  adopt : AdoptArgs → Call
  start stop delete : Option Str → Call

-- The name that a call is about.
abbrev pub subject : Call → Option Str
subject (create a) = a.name
subject (adopt a) = a.name
subject (start name) = name
subject (stop name) = name
subject (delete name) = name

module _ {F : Type 0} (H : Host F) where
  open H use {World, time}

  unfoldable pub perform : Call → Registry → World → Rc × Registry × World
  perform (create a) r w = container_create_ex H a r w
  perform (adopt a) r w = let (rc, r') = container_adopt a (time w) r in (rc, r', w)
  perform (start name) r w = container_start H name r w
  perform (stop name) r w = container_stop H name r w
  perform (delete name) r w = container_delete H name r w

  -- The registry and the world after a history.
  unfoldable pub run : List Call → Registry → World → Registry × World
  run [] r w = (r, w)
  run (c ∷ cs) r w = let (_, r', w') = perform c r w in run cs r' w'
