-- ===== src/Container/Records.antt =====
-- Properties of records that hold in every used slot.
use nexus_db.Prelude.{
  ◌≡◌, ◌∙◌, sym, subst, Bool, true, Option, some, inl, inr, Str, All, All-set, All-get_or,
  Option-cases,
}
use mathlib.Core.Option.{some-injective}
use nexus_db.Rc.{is_ok}
use nexus_db.Container.Types.{Container}
use nexus_db.Container.Host.{Host}
use nexus_db.Container.Registry.{Slot, zero_slot, Registry, find_slot, slot_at, container_get}
use nexus_db.Container.Registry.Found.{find_slot-Found, container_get-find, container_get-none}
use nexus_db.Container.Calls.{Call, perform}
use nexus_db.Container.Updates.{Update}
use nexus_db.Container.Touches.{same, wrote, perform-Touches}

module _ (P : Container → Type 0) where
  abbrev pub Has : Slot → Type 0
  Has s = s.in_use ≡ true → P s.c

  pub container_get-Has :
      (r : Registry) (name : Option Str) (c : Container)
      → All Has r.slots
      → container_get r name ≡ some c
      → P c
  container_get-Has r name c has got = elim (Option-cases (find_slot r.slots name)) [
    | inl f ↦ cc (container_get-none r name f)
    | inr (i, f) ↦
        let found = find_slot-Found r.slots name i f in
        let here : P (slot_at r.slots i).c =
          All-get_or Has r.slots i zero_slot has (λ e. cc) found.in_use in
        subst P (some-injective _ _ (sym (container_get-find r name i f) ∙ got)) here
  ]

  pub perform-Has :
      {F : Type 0} (H : Host F) (c : Call) (r : Registry) (w : H.World)
      → ((done : Bool) (old new : Container) → Update r old new done c → P new)
      → All Has r.slots
      → All Has (perform H c r w).1.slots
  perform-Has H c r w keeps has = elim (perform-Touches H c r w) [
    | same _ e ↦ rw e has
    | wrote i s h used named e u ↦
        rw e (All-set Has r.slots i s has (λ _. keeps (is_ok (perform H c r w).0) _ s.c u))
  ]
