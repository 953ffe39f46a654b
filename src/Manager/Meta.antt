-- ===== src/Manager/Meta.antt =====
-- The metadata file of a container in src/manager/manager.cpp: the text that `SaveMeta` writes and
-- what `LoadMeta` makes of a text. The texts have no NUL, so that `c_str()` is the whole of them.
pub mod RoundTrip
use nexus_db.Prelude.{
  ℕ, ◌+◌, ◌-◌, ◌%◌, ◌^◌, Bool, true, false, Option, none, some, List, [], ◌∷◌, ◌++◌, leb, ◌==◌,
  if◌then◌else◌, Str, codes, str_eq, ℤ, pos, negsuc, minus_one,
}
use nexus_db.Prelude.Numerals.{show_ulong, show_long}
use nexus_db.Prelude.Scan.{Scanned, strtoul, strtol}

pub record ContainerMeta : Type 0 where
  pub name : Str
  pub id : Str
  pub memory : ℕ
  pub cpu : ℕ
  pub engine : Str
  pub cgroup : Str
  pub pid : ℤ
  pub state : ℤ

-- The initial values of the members, NEXUS_CREATED among them.
abbrev pub new_meta : Str → ContainerMeta
new_meta name = record {
  name = name;
  id = [];
  memory = 0;
  cpu = 0;
  engine = [];
  cgroup = [];
  pid = minus_one;
  state = pos 0;
}

-- A character in front of the lines that follow.
abbrev pub begin_line : ℕ → List Str → List Str
begin_line c [] = (c ∷ []) ∷ []
begin_line c (l ∷ ls) = (c ∷ l) ∷ ls

-- `while (std::getline(in, line))`
unfoldable pub lines : Str → List Str
lines [] = []
lines (c ∷ s) = let rest = lines s in if c == 10 then [] ∷ rest else begin_line c rest

abbrev pub begin_key : ℕ → Option (Str × Str) → Option (Str × Str)
begin_key c none = none
begin_key c (some (key, val)) = some (c ∷ key, val)

-- `line.find('=')` with the two `substr`.
unfoldable pub split_eq : Str → Option (Str × Str)
split_eq [] = none
split_eq (c ∷ s) = let rest = split_eq s in if c == b'=' then some ([], s) else begin_key c rest

abbrev pub value_or : {A : Type 0} → A → Option (Scanned A) → A
value_or d none = d
value_or d (some r) = r.value

-- `strtoul(val, nullptr, 10)` and `strtol(val, nullptr, 10)`, 0 where no number is read.
abbrev pub to_ulong : Str → ℕ
to_ulong val = value_or 0 (strtoul val)

abbrev pub to_long : Str → ℤ
to_long val = value_or (pos 0) (strtol val)

-- `static_cast<int>` of the bits of a value.
abbrev pub int_of_bits : ℕ → ℤ
int_of_bits bits = if leb (2 ^ 31) bits then negsuc (2 ^ 32 - 1 - bits) else pos bits

abbrev pub to_int : ℤ → ℤ
to_int (pos n) = int_of_bits (n % 2 ^ 32)
to_int (negsuc n) = int_of_bits (2 ^ 32 - 1 - n % 2 ^ 32)

-- What a line with a `=` changes.
unfoldable pub set_key : Str → Str → ContainerMeta → ContainerMeta
set_key key val meta =
    if str_eq key (codes "name")
    then record meta { name = val }
    else if str_eq key (codes "id")
    then record meta { id = val }
    else if str_eq key (codes "memory")
    then record meta { memory = to_ulong val }
    else if str_eq key (codes "cpu")
    then record meta { cpu = to_ulong val % 2 ^ 32 }
    else if str_eq key (codes "engine")
    then record meta { engine = val }
    else if str_eq key (codes "cgroup")
    then record meta { cgroup = val }
    else if str_eq key (codes "pid")
    then record meta { pid = to_long val }
    else if str_eq key (codes "state")
    then record meta { state = to_int (to_long val) }
    else meta

unfoldable pub read_line : Str → ContainerMeta → ContainerMeta
read_line line meta = elim (split_eq line) [ none ↦ meta | some (key, val) ↦ set_key key val meta ]

unfoldable pub read_lines : List Str → ContainerMeta → ContainerMeta
read_lines [] meta = meta
read_lines (line ∷ rest) meta = read_lines rest (read_line line meta)

-- `LoadMeta` of the text of the file.
unfoldable pub load_meta : Str → Str → ContainerMeta
load_meta name text = read_lines (lines text) (new_meta name)

-- A line of `SaveMeta` in front of the rest.
abbrev pub line_of : Str → Str → Str → Str
line_of key val rest = (key ++ b'=' ∷ val) ++ 10 ∷ rest

-- The text that `SaveMeta` writes.
unfoldable pub save_meta : ContainerMeta → Str
save_meta meta = line_of (codes "name") meta.name (
    line_of (codes "id") meta.id (
      line_of (codes "memory") (show_ulong meta.memory) (
        line_of (codes "cpu") (show_ulong meta.cpu) (
          line_of (codes "engine") meta.engine (
            line_of (codes "cgroup") meta.cgroup (
              line_of (codes "pid") (show_long meta.pid)
                (line_of (codes "state") (show_long meta.state) [])))))))
