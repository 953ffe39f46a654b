-- ===== src/Container/Machine.antt =====
-- The lifecycle as an abstract machine: a state for each name, and the moves of docs and header.
-- The registry refines it.
use nexus_db.Prelude.{
  ℕ, ◌≡◌, refl, ◌∙◌, sym, subst, ap, ◌≢◌, ◌⊎◌, inl, inr, ◌||◌, true, false, Option, none, some,
  arith, Str, str_eq, str_eq_iff, Bool-cases, Option-cases, ℤ,
}
use nexus_db.Rc.{Rc, is_ok}
use nexus_db.Container.Types.{State, is_created, is_stopped, is_running, Container}
use nexus_db.Container.Host.{Host}
use nexus_db.Container.Registry.{Registry, find_slot, container_get}
use nexus_db.Container.Create.{CreateArgs, is_live_at, new_container}
use nexus_db.Container.Adopt.{AdoptArgs, state_of_int, adopted_container}
use nexus_db.Container.Calls.{Call, create, adopt, start, stop, delete, subject, perform}
use nexus_db.Container.Updates.{Update}
use nexus_db.Container.Updates.{
  created, adopted, started, start_failed, stopped, deleted, delete_failed,
}
use nexus_db.Container.Touches.{same, wrote, perform-Touches}
use nexus_db.Container.Lookup.{container_get-slots, container_get-written, container_get-other}

-- The abstract view: which state each name is in, and whether it is known.
abbrev pub state_of : Option Container → Option State
state_of none = none
state_of (some c) = some c.state

unfoldable pub status : Registry → Option Str → Option State
status r name = state_of (container_get r name)

-- The moves of the lifecycle.
pub data Moves : Call → Option State → State → Type 0 where
  create_new : {a : CreateArgs} → Moves (create a) none State.created
  create_again : {a : CreateArgs} → Moves (create a) (some State.deleted) State.created
  adopt_any :
      {a : AdoptArgs} {from : Option State} {to : State}
      → state_of_int a.state ≡ some to
      → Moves (adopt a) from to
  start_created : {n : Option Str} → Moves (start n) (some State.created) State.running
  start_stopped : {n : Option Str} → Moves (start n) (some State.stopped) State.running
  stop_running : {n : Option Str} → Moves (stop n) (some State.running) State.stopped
  delete_created : {n : Option Str} → Moves (delete n) (some State.created) State.deleted
  delete_stopped : {n : Option Str} → Moves (delete n) (some State.stopped) State.deleted

-- One step of the abstract machine, with the code that the call returned: success is a move of
-- the name that the call is about, an error moves nothing.
pub data Step (c : Call) (rc : Rc) (before after : Option Str → Option State) : Type 0 where
  moves :
      (to : State)
      → rc ≡ Rc.ok
      → Moves c (before (subject c)) to
      → after (subject c) ≡ some to
      → ((m : Option Str) → m ≢ subject c → after m ≡ before m)
      → Step c rc before after
  stays : rc ≢ Rc.ok → ((m : Option Str) → after m ≡ before m) → Step c rc before after

pub ok_of_is_ok : (rc : Rc) → is_ok rc ≡ true → rc ≡ Rc.ok
ok_of_is_ok rc h = ground arith

not_ok : (rc : Rc) → is_ok rc ≡ false → rc ≢ Rc.ok
not_ok rc h e = ground arith

-- A name that is not live is unknown or deleted.
not_live :
    (r : Registry) (name : Option Str)
    → is_live_at r name ≡ false
    → (status r name ≡ none) ⊎ (status r name ≡ some State.deleted)
unfolding is_live_at status container_get
not_live r name h = elim (Option-cases (find_slot r.slots name)) [
  | inl f ↦ inl (rw (f, container_get))
  | inr (i, f) ↦ inr (ground arith)
]

-- Equality of names can be decided.
pub name_dec : (m n : Option Str) → (m ≡ n) ⊎ (m ≢ n)
name_dec none none = inl refl
name_dec none (some n) = inr (λ e. cc)
name_dec (some m) none = inr (λ e. cc)
name_dec (some m) (some n) = elim (Bool-cases (str_eq m n)) [
  | inl e ↦ inl (ap some ((str_eq_iff m n).0 e))
  | inr e ↦ inr (λ h. ground (arith, str_eq_iff m n))
]

may_cases :
    (s : State) → (is_created s || is_stopped s) ≡ true → (s ≡ State.created) ⊎ (s ≡ State.stopped)
may_cases s h = ground arith

running_case : (s : State) → is_running s ≡ true → s ≡ State.running
running_case s h = ground arith

-- The moves from the state that the name is found in.
create-Moves :
    (a : CreateArgs) (from : Option State)
    → (from ≡ none) ⊎ (from ≡ some State.deleted)
    → Moves (create a) from State.created
create-Moves a from (inl e) = subst (λ s. Moves (create a) s State.created) (sym e) create_new
create-Moves a from (inr e) = subst (λ s. Moves (create a) s State.created) (sym e) create_again

start-Moves :
    (n : Option Str) (s : State)
    → (s ≡ State.created) ⊎ (s ≡ State.stopped)
    → Moves (start n) (some s) State.running
start-Moves n s (inl e) = subst (λ s. Moves (start n) (some s) State.running) (sym e) start_created
start-Moves n s (inr e) = subst (λ s. Moves (start n) (some s) State.running) (sym e) start_stopped

delete-Moves :
    (n : Option Str) (s : State)
    → (s ≡ State.created) ⊎ (s ≡ State.stopped)
    → Moves (delete n) (some s) State.deleted
delete-Moves n s (inl e) =
    subst (λ s. Moves (delete n) (some s) State.deleted) (sym e) delete_created
delete-Moves n s (inr e) =
    subst (λ s. Moves (delete n) (some s) State.deleted) (sym e) delete_stopped

new_container-state :
    (a : CreateArgs) (path : Str) (n : ℕ) (now : ℤ)
    → (new_container a path n now).state ≡ State.created
unfolding new_container
new_container-state a path n now = ground arith

adopted_container-state :
    (a : AdoptArgs) (state : State) (now : ℤ) → (adopted_container a state now).state ≡ state
unfolding adopted_container
adopted_container-state a state now = refl

status-got :
    (r : Registry) (name : Option Str) (c : Container)
    → container_get r name ≡ some c
    → status r name ≡ some c.state
unfolding status
status-got r name c h = rw h

abbrev MoveOrStay : Call → Rc → Option State → State → Type 0
MoveOrStay c rc from to = ((rc ≡ Rc.ok) × Moves c from to) ⊎ ((rc ≢ Rc.ok) × (some to ≡ from))

-- The move that a written record makes, or that it makes none.
Update-MoveOrStay :
    (c : Call) (rc : Rc) (r : Registry) (old new : Container)
    → Update r old new (is_ok rc) c
    → MoveOrStay c rc (status r (subject c)) new.state
Update-MoveOrStay (create a) rc r old new (created path n now _ live e d) = inl (
  ok_of_is_ok rc d,
  rw (ap (λ (k : Container). k.state) e ∙ new_container-state a path n now)
      (create-Moves a _ (not_live r a.name live)),
)
Update-MoveOrStay (adopt a) rc r old new (adopted state now _ s e d) = inl (
  ok_of_is_ok rc d,
  rw (ap (λ (k : Container). k.state) e ∙ adopted_container-state a state now) (adopt_any s),
)
Update-MoveOrStay (start n) rc r old new (started pid got may _ e d) =
    inl
      (ok_of_is_ok rc d, rw (status-got r n old got, e) (start-Moves n old.state (may_cases _ may)))
Update-MoveOrStay (start n) rc r old new (start_failed got may e d) =
    inr (not_ok rc d, rw (status-got r n old got, e))
Update-MoveOrStay (stop n) rc r old new (stopped got may e d) =
    inl (ok_of_is_ok rc d, rw (status-got r n old got, e, running_case _ may) stop_running)
Update-MoveOrStay (delete n) rc r old new (deleted got may e d) =
    inl (
      ok_of_is_ok rc d,
      rw (status-got r n old got, e) (delete-Moves n old.state (may_cases _ may)),
    )
Update-MoveOrStay (delete n) rc r old new (delete_failed got may e d) =
    inr (not_ok rc d, rw (status-got r n old got, e))

-- Where the subject keeps its state and the other names theirs, nothing moves.
all_stay :
    (before after : Option Str → Option State) (name : Option Str)
    → after name ≡ before name
    → ((m : Option Str) → m ≢ name → after m ≡ before m)
    → (m : Option Str) → after m ≡ before m
all_stay before after name self others m = elim (name_dec m name) [
  | inl e ↦ subst (λ k. after k ≡ before k) (sym e) self
  | inr ne ↦ others m ne
]

-- A call is a step of the abstract machine: if it returns NEXUS_OK then the name it is about makes
-- a move of the lifecycle, to the state that `container_get` shows afterwards, and no other name
-- changes its state; if it returns any error then no name changes its state.
pub perform-Step :
    {F : Type 0} (H : Host F) (c : Call) (r : Registry) (w : H.World)
    → Step c (perform H c r w).0 (status r) (status (perform H c r w).1)
unfolding status
perform-Step H c r w = elim (perform-Touches H c r w) [
  | same bad e ↦ stays (not_ok _ bad) (λ m. ap state_of (container_get-slots r _ m e))
  | wrote i s h used named e u ↦
      let r' = (perform H c r w).1 in
      let self = ap state_of (container_get-written r r' (subject c) i s used named h e) in
      let others : (m : Option Str) → m ≢ subject c → status r' m ≡ status r m =
        λ m ne. ap state_of (container_get-other r r' (subject c) m i s named h e ne) in
      elim (Update-MoveOrStay c (perform H c r w).0 r _ s.c u) [
        | inl (good, move) ↦ moves s.c.state good move self others
        | inr (bad, kept) ↦
            stays bad (all_stay (status r) (status r') (subject c) (self ∙ kept) others)
      ]
]
