-- ===== src/Container/Pids.antt =====
-- The recorded pid and the state agree.
use nexus_db.Prelude.{
  ℕ, ◌≡◌, refl, sym, subst, ◌⊎◌, inl, inr, ◌||◌, Bool, true, false, Option, some, List, [], ◌∷◌,
  arith, Str, All, All-replicate, ℤ, is_pos, minus_one,
}
use nexus_db.Container.Types.{State, is_running, is_created, is_stopped, Container}
use nexus_db.Container.Host.{Host}
use nexus_db.Container.Registry.{zero_slot, Registry, initial, container_get}
use nexus_db.Container.Create.{CreateArgs, new_container}
use nexus_db.Container.Adopt.{state_of_int, adopted_container}
use nexus_db.Container.Calls.{Call, create, adopt, start, stop, delete, run}
use nexus_db.Container.Updates.{Update}
use nexus_db.Container.Updates.{
  created, adopted, started, start_failed, stopped, deleted, delete_failed,
}
use nexus_db.Container.Records.{Has, container_get-Has, perform-Has}

-- A running container has a pid, any other has the pid -1.
abbrev pub PidFits : State → ℤ → Type 0
PidFits s pid =
    ((is_running s ≡ true) × (is_pos pid ≡ true)) ⊎ ((is_running s ≡ false) × (pid ≡ minus_one))

abbrev pub PidMatches : Container → Type 0
PidMatches c = PidFits c.state c.pid

-- What a caller of `container_adopt` restores agrees too.
abbrev pub IsConsistent : Call → Type 0
IsConsistent (adopt a) = (s : State) → state_of_int a.state ≡ some s → PidFits s a.pid
IsConsistent (create _) = Unit
IsConsistent (start _) = Unit
IsConsistent (stop _) = Unit
IsConsistent (delete _) = Unit

not_running : (s : State) → (is_created s || is_stopped s) ≡ true → is_running s ≡ false
not_running s h = ground arith

created-PidMatches :
    (a : CreateArgs) (path : Str) (n : ℕ) (now : ℤ) → PidMatches (new_container a path n now)
unfolding new_container
created-PidMatches a path n now = ground arith

Update-PidMatches :
    (c : Call) (done : Bool) (r : Registry) (old new : Container)
    → IsConsistent c
    → Update r old new done c
    → PidMatches new
Update-PidMatches (create a) done r old new k (created path n now _ _ e _) =
    subst PidMatches (sym e) (created-PidMatches a path n now)
Update-PidMatches (adopt a) done r old new k (adopted state now _ s e _) =
    subst PidMatches (sym e) (unfold adopted_container in k state s)
Update-PidMatches (start n) done r old new k (started pid _ _ p e _) =
    subst PidMatches (sym e) (inl (refl, p))
Update-PidMatches (start n) done r old new k (start_failed _ may e _) =
    subst PidMatches (sym e) (inr (not_running old.state may, refl))
Update-PidMatches (stop n) done r old new k (stopped _ _ e _) =
    subst PidMatches (sym e) (inr (refl, refl))
Update-PidMatches (delete n) done r old new k (deleted _ _ e _) =
    subst PidMatches (sym e) (inr (refl, refl))
Update-PidMatches (delete n) done r old new k (delete_failed _ may e _) =
    subst PidMatches (sym e) (inr (not_running old.state may, refl))

module _ {F : Type 0} (H : Host F) where
  open H use {World}

  run-Has :
      (cs : List Call) (r : Registry) (w : World)
      → All IsConsistent cs
      → All (Has PidMatches) r.slots
      → All (Has PidMatches) (run H cs r w).0.slots
  unfolding run
  run-Has [] r w k has = has
  run-Has (c ∷ cs) r w k has =
      run-Has cs _ _ k.1 (
        perform-Has PidMatches H c r w (λ done old new. Update-PidMatches c done r old new k.0) has)

  -- After any history from the empty registry in which the restored records agree with their own
  -- pids, a container that `container_get` gives has a positive pid if it is running, and the pid
  -- -1 if it is not.
  pub run-PidMatches :
      (cs : List Call) (w : World) (name : Option Str) (c : Container)
      → All IsConsistent cs
      → container_get (run H cs initial w).0 name ≡ some c
      → PidMatches c
  run-PidMatches cs w name c k got =
      container_get-Has PidMatches (run H cs initial w).0 name c
        (run-Has cs initial w k
          (unfold initial in All-replicate (Has PidMatches) 64 zero_slot (λ e. cc)))
        got
