-- ===== src/Container/Failure.antt =====
-- What a failed call leaves behind in the registry.
use nexus_db.Prelude.{
  ◌≡◌, refl, ◌∙◌, ap, ◌≢◌, ◌⊎◌, inl, inr, Bool, true, Option, some, Str, minus_one, arith,
}
use nexus_db.Rc.{Rc, is_ok}
use nexus_db.Container.Types.{Container}
use nexus_db.Container.Host.{Host}
use nexus_db.Container.Registry.{Registry, container_get}
use nexus_db.Container.Calls.{Call, create, adopt, start, stop, delete, subject, perform}
use nexus_db.Container.Updates.{Update}
use nexus_db.Container.Updates.{
  created, adopted, started, start_failed, stopped, deleted, delete_failed,
}
use nexus_db.Container.Touches.{same, wrote, perform-Touches}
use nexus_db.Container.Lookup.{container_get-slots, container_get-written, container_get-other}
use nexus_db.Container.Machine.{name_dec}

-- The calls that may forget a pid when they fail.
abbrev pub forgets : Call → Bool
forgets (create _) = Bool.false
forgets (adopt _) = Bool.false
forgets (start _) = true
forgets (stop _) = Bool.false
forgets (delete _) = true

-- The record of a name after a failed call: as before, or, for a start or a delete of that name,
-- as before but for the pid, which is -1.
abbrev pub KeptBut : Call → Option Str → (before after : Option Container) → Type 0
KeptBut c name before after =
    (after ≡ before)
    ⊎ ((old : Container) × (forgets c ≡ true)
        × (name ≡ subject c)
        × (before ≡ some old)
        × (after ≡ some (record old { pid = minus_one })))

Update-KeptBut :
    (c : Call) (done : Bool) (r : Registry) (old new : Container)
    → done ≡ Bool.false
    → Update r old new done c
    → (forgets c ≡ true)
      × (container_get r (subject c) ≡ some old)
      × (new ≡ record old { pid = minus_one })
Update-KeptBut (create a) done r old new b (created _ _ _ _ _ _ d) = cc
Update-KeptBut (adopt a) done r old new b (adopted _ _ _ _ _ d) = cc
Update-KeptBut (start n) done r old new b (started _ _ _ _ _ d) = cc
Update-KeptBut (start n) done r old new b (start_failed got _ e _) = (refl, got, e)
Update-KeptBut (stop n) done r old new b (stopped _ _ _ d) = cc
Update-KeptBut (delete n) done r old new b (deleted _ _ _ d) = cc
Update-KeptBut (delete n) done r old new b (delete_failed got _ e _) = (refl, got, e)

is_ok_ne : (rc : Rc) → rc ≢ Rc.ok → is_ok rc ≡ Bool.false
is_ok_ne rc h = ground arith

-- A call that returns an error leaves every record as it was, field for field; only a failed start
-- or delete of a name may set that name's pid to -1.
pub perform_failed :
    {F : Type 0} (H : Host F) (c : Call) (r : Registry) (w : H.World) (name : Option Str)
    → (perform H c r w).0 ≢ Rc.ok
    → KeptBut c name (container_get r name) (container_get (perform H c r w).1 name)
perform_failed H c r w name bad = elim (perform-Touches H c r w) [
  | same _ e ↦ inl (container_get-slots r _ name e)
  | wrote i s h used named e u ↦ elim (name_dec name (subject c)) [
    | inr ne ↦ inl (container_get-other r _ (subject c) name i s named h e ne)
    | inl own ↦
        let (may, got, new) = Update-KeptBut c _ r _ s.c (is_ok_ne _ bad) u in
        let now = container_get-written r (perform H c r w).1 (subject c) i s used named h e in
        inr (
          _,
          may,
          own,
          ap (container_get r) own ∙ got,
          ap (container_get (perform H c r w).1) own ∙ now ∙ ap some new,
        )
  ]
]
