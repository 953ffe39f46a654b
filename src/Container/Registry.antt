-- ===== src/Container/Registry.antt =====
-- The slots of container.c, the lookups in them, and the checks of a name.
pub mod Found
use nexus_db.Prelude.{
  ℕ, Bool, true, false, not, ◌&&◌, ◌||◌, Option, none, some, List, [], ◌∷◌, leb, ◌==◌,
  if◌then◌else◌, Str, is_alnum, str_eq, length, get_or, set, replicate, find_index, pos,
}
use nexus_db.Rc.{Rc}
use nexus_db.Container.Types.{State, Container, name_max}

abbrev pub max_containers : ℕ
max_containers = 64

pub record Slot : Type 0 where
  pub in_use : Bool
  pub c : Container

-- `memset(s, 0, sizeof(*s))`
abbrev pub zero_container : Container
zero_container = record {
  name = [];
  id = [];
  state = State.created;
  pid = pos 0;
  memory_bytes = 0;
  cpu_percent = 0;
  cgroup_path = [];
  db_engine = [];
  created_at = pos 0;
  ns_pid = false;
  ns_mount = false;
  ns_net = false;
  ns_uts = false;
  ns_ipc = false;
  ns_hostname = [];
}

abbrev pub zero_slot : Slot
zero_slot = record { in_use = false; c = zero_container }

-- `g_slots` and `g_next_id`.
pub record Registry : Type 0 where
  pub slots : List Slot
  pub next_id : ℕ

unfoldable pub initial : Registry
initial = record { slots = replicate max_containers zero_slot; next_id = 1 }

all_name_chars : Str → Bool
all_name_chars [] = true
all_name_chars (ch ∷ s) =
    if not (is_alnum ch) && not (ch == b'_') && not (ch == b'-') then false else all_name_chars s

unfoldable pub name_valid : Option Str → Bool
unfolding all_name_chars
name_valid none = false
name_valid (some name) =
    if length name == 0 || leb name_max (length name) then false else all_name_chars name

-- The slot that holds a record of this name.
abbrev pub holds : Str → Slot → Bool
holds name s = s.in_use && str_eq s.c.name name

abbrev pub is_free : Slot → Bool
is_free s = not s.in_use

unfoldable pub find_slot : List Slot → Option Str → Option ℕ
find_slot slots none = none
find_slot slots (some name) = find_index (holds name) slots

unfoldable pub free_slot : List Slot → Option ℕ
free_slot slots = find_index is_free slots

-- The slot that a pointer `&g_slots[i]` points at.
abbrev pub slot_at : List Slot → ℕ → Slot
slot_at slots i = get_or slots i zero_slot

-- `container_get`
unfoldable pub container_get : Registry → Option Str → Option Container
container_get r name = elim (find_slot r.slots name) [
  | none ↦ none
  | some i ↦ some (slot_at r.slots i).c
]

-- `dup != NULL ? dup : free_slot()`
unfoldable pub claim_slot : List Slot → Option Str → Option ℕ
claim_slot slots name = elim (find_slot slots name) [ none ↦ free_slot slots | some i ↦ some i ]

-- A write through the pointer `&g_slots[i]`.
abbrev pub write_slot : Registry → ℕ → Slot → Registry
write_slot r i s = record r { slots = set r.slots i s }

abbrev pub write_container : Registry → ℕ → Container → Registry
write_container r i c = write_slot r i (record (slot_at r.slots i) { c = c })

abbrev pub too_long : ℕ → Option Str → Bool
too_long cap none = false
too_long cap (some s) = leb cap (length s)

abbrev pub or_empty : Option Str → Str
or_empty none = []
or_empty (some s) = s

-- How the operations on a known container begin:
-- `if (!name_valid(name)) return INVALID; s = find_slot(name); if (s == NULL) return NOT_FOUND;`
-- The rest is a function of the slot.
unfoldable pub with_slot :
    {W : Type 0} → Option Str → Registry → W → (ℕ → Rc × Registry × W) → Rc × Registry × W
with_slot name r w rest =
    if not (name_valid name)
    then (Rc.invalid, r, w)
    else elim (find_slot r.slots name) [ none ↦ (Rc.not_found, r, w) | some i ↦ rest i ]
