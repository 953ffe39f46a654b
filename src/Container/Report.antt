-- ===== src/Container/Report.antt =====
-- `container_status` and the name tables of container.c.
use nexus_db.Prelude.{
  ℕ, zero, suc, ◌-◌, ◌<◌, ◌≤◌, ◌≡◌, refl, ◌⊎◌, inl, inr, ◌++◌, true, not, Option, none, some, [],
  ◌∷◌, Str, codes, length, take, take_self, leb, if◌then◌else◌, copy_into, arith, Bool-cases,
  Option-cases, ap,
}
use nexus_db.Prelude.Numerals.{show_ulong, show_long}
use nexus_db.Rc.{Rc}
use nexus_db.Container.Types.{State, Container}
use nexus_db.Container.Registry.{Registry, name_valid, find_slot, slot_at, container_get}

abbrev pub container_state_str : State → Str
container_state_str State.created = codes "CREATED"
container_state_str State.running = codes "RUNNING"
container_state_str State.stopped = codes "STOPPED"
container_state_str State.deleted = codes "DELETED"

-- `container_strerror` of a result code; its default is for other numbers.
abbrev pub container_strerror : Rc → Str
container_strerror Rc.ok = codes "ok"
container_strerror Rc.invalid = codes "invalid argument"
container_strerror Rc.not_found = codes "container not found"
container_strerror Rc.exists = codes "container already exists"
container_strerror Rc.illegal_state = codes "illegal state for this operation"
container_strerror Rc.nomem = codes "container registry full"
container_strerror Rc.process = codes "child process operation failed"
container_strerror Rc.unsupported = codes "not supported on this platform"

-- The engine's name, where one is configured.
abbrev engine_text : Str → Str
engine_text [] = codes "(none configured)"
engine_text (c ∷ s) = c ∷ s

-- The text that `container_status` formats.
unfoldable pub status_text : Container → Str
status_text c =
    codes "Container: "
    ++ c.name
    ++ codes "\nID: "
    ++ c.id
    ++ codes "\nState: "
    ++ container_state_str c.state
    ++ codes "\nPID: "
    ++ show_long c.pid
    ++ codes "\nMemory limit: "
    ++ show_ulong c.memory_bytes
    ++ codes " bytes\nCPU limit: "
    ++ show_ulong c.cpu_percent
    ++ codes "%\nCgroup: "
    ++ c.cgroup_path
    ++ codes "\nDB engine: "
    ++ engine_text c.db_engine
    ++ codes "\n"

-- The code and what an array of `n + 1` bytes holds.
unfoldable pub status_into : ℕ → Container → Rc × Option Str
status_into n c =
    let text = status_text c in
    (if leb (suc n) (length text) then Rc.invalid else Rc.ok, some (copy_into (suc n) text))

-- The length of the array is `none` for NULL; what it holds is `none` where it is left alone.
unfoldable pub container_status : Registry → Option Str → Option ℕ → Rc × Option Str
container_status r name none = (Rc.invalid, none)
container_status r name (some zero) = (Rc.invalid, none)
container_status r name (some (suc n)) =
    if not (name_valid name) then (Rc.invalid, none) else elim (find_slot r.slots name) [
      | none ↦ (Rc.not_found, none)
      | some i ↦ status_into n (slot_at r.slots i).c
    ]

status_into_cases :
    (n : ℕ) (c : Container)
    → (let (rc, text) = status_into n c in
        ((rc ≡ Rc.ok) × (text ≡ some (status_text c)))
        ⊎ ((rc ≡ Rc.invalid)
            × (n < length (status_text c))
            × (text ≡ some (take n (status_text c)))))
unfolding status_into
status_into_cases n c = elim (Bool-cases (leb (suc n) (length (status_text c)))) [
  | inl k ↦ rw k (inr (refl, ground arith, ap (λ m. some (take m (status_text c))) (omega arith)))
  | inr k ↦
      let small : length (status_text c) ≤ suc n - 1 = ground arith in
      rw k (inl (refl, ap some (take_self (suc n - 1) (status_text c) small)))
]

-- For a valid name and an array that is not empty: without a container of this name
-- `container_status` returns NEXUS_ERR_NOT_FOUND and leaves the array alone; otherwise it returns
-- NEXUS_OK with the whole report of the record, or NEXUS_ERR_INVALID with the prefix that fits.
container_status_cases :
    (r : Registry) (name : Option Str) (n : ℕ)
    → name_valid name ≡ true
    → (let (rc, text) = container_status r name (some (suc n)) in
        ((container_get r name ≡ none) × (rc ≡ Rc.not_found) × (text ≡ none))
        ⊎ ((c : Container) × (container_get r name ≡ some c)
            × (((rc ≡ Rc.ok) × (text ≡ some (status_text c)))
                ⊎ ((rc ≡ Rc.invalid)
                    × (n < length (status_text c))
                    × (text ≡ some (take n (status_text c)))))))
unfolding container_status container_get
container_status_cases r name n valid = elim (Option-cases (find_slot r.slots name)) [
  | inl e ↦ rw (valid, e, container_status, container_get) (inl (refl, refl, refl))
  | inr (i, e) ↦
      let c = (slot_at r.slots i).c in
      rw (valid, e, container_status, container_get) (inr (c, refl, status_into_cases n c))
]
