-- ===== src/Manager/Meta/RoundTrip.antt =====
-- The metadata that is written is read back.
use nexus_db.Prelude.{
  ℕ, zero, suc, ◌+◌, ◌/◌, ◌%◌, ◌^◌, ◌<◌, ◌≡◌, ◌≢◌, refl, ap, ◌∙◌, inl, inr, false, some, [], ◌∷◌,
  ◌++◌, ◌==◌, Bool-cases, Str, codes, ℤ, pos, negsuc, All, arith,
}
use nexus_db.Prelude.Numerals.{show_ulong, show_long, dec_digits}
use nexus_db.Prelude.Scan.RoundTrip.{strtoul-show_ulong}
use nexus_db.Prelude.Scan.Long.{IsLong, strtol-show_long}
use nexus_db.Manager.Meta.{
  ContainerMeta, new_meta, lines, split_eq, to_ulong, to_long, to_int, set_key, read_line,
  read_lines, load_meta, line_of, save_meta,
}

-- A text of one line.
abbrev pub OneLine : Str → Type 0
OneLine s = All (λ c. c ≢ 10) s

append_assoc : (xs ys zs : Str) → (xs ++ ys) ++ zs ≡ xs ++ (ys ++ zs)
append_assoc [] ys zs = refl
append_assoc (x ∷ xs) ys zs = ap (λ l. x ∷ l) (append_assoc xs ys zs)

lines-OneLine : (l s : Str) → OneLine l → lines (l ++ 10 ∷ s) ≡ l ∷ lines s
unfolding lines
lines-OneLine [] s h = refl
lines-OneLine (c ∷ l) s h =
    let other = h.0 in
    let apart : (c == 10) ≡ false = ground arith in rw (apart, lines-OneLine l s h.1) refl

All-append : (xs ys : Str) → OneLine xs → OneLine ys → OneLine (xs ++ ys)
All-append [] ys h k = k
All-append (x ∷ xs) ys h k = (h.0, All-append xs ys h.1 k)

-- A line of the file is read as its key and its value, whatever the value is.
read_lines-line_of :
    (key val rest : Str) (meta : ContainerMeta)
    → OneLine key
    → OneLine val
    → split_eq (key ++ b'=' ∷ val) ≡ some (key, val)
    → read_lines (lines (line_of key val rest)) meta
      ≡ read_lines (lines rest) (set_key key val meta)
unfolding read_lines read_line
read_lines-line_of key val rest meta hk hv e =
    let line = All-append key (b'=' ∷ val) hk (omega arith, hv) in
    rw (lines-OneLine (key ++ b'=' ∷ val) rest line) (rw (read_lines, read_line, e) refl)

dec_digits-OneLine : (fuel n : ℕ) (s : Str) → OneLine s → OneLine (dec_digits fuel n s)
unfolding dec_digits
dec_digits-OneLine zero n s h = h
dec_digits-OneLine (suc fuel) n s h =
    let digit : OneLine ((b'0' + n % 10) ∷ s) = (omega arith, h) in
    elim (Bool-cases (n / 10 == 0)) [
      | inl z ↦ rw z digit
      | inr z ↦ rw z (dec_digits-OneLine fuel (n / 10) ((b'0' + n % 10) ∷ s) digit)
    ]

show_ulong-OneLine : (n : ℕ) → OneLine (show_ulong n)
unfolding show_ulong
show_ulong-OneLine n = dec_digits-OneLine 20 n [] tt

show_long-OneLine : (z : ℤ) → OneLine (show_long z)
unfolding show_long
show_long-OneLine (pos n) = show_ulong-OneLine n
show_long-OneLine (negsuc n) = (omega arith, show_ulong-OneLine (n + 1))

-- The range of `int`.
abbrev pub IsInt : ℤ → Type 0
IsInt (pos n) = n < 2 ^ 31
IsInt (negsuc n) = n < 2 ^ 31

to_int-IsInt : (z : ℤ) → IsInt z → to_int z ≡ z
to_int-IsInt (pos n) h = ground arith
to_int-IsInt (negsuc n) h = ground arith

IsInt-IsLong : (z : ℤ) → IsInt z → IsLong z
IsInt-IsLong (pos n) h = omega arith
IsInt-IsLong (negsuc n) h = omega arith

-- Metadata whose texts are lines and whose numbers fit their C types.
pub record Storable (m : ContainerMeta) : Type 0 where
  pub name : OneLine m.name
  pub id : OneLine m.id
  pub engine : OneLine m.engine
  pub cgroup : OneLine m.cgroup
  pub memory : m.memory < 2 ^ 64
  pub cpu : m.cpu < 2 ^ 32
  pub pid : IsLong m.pid
  pub state : IsInt m.state

to_ulong-show_ulong : (n : ℕ) → n < 2 ^ 64 → to_ulong (show_ulong n) ≡ n
to_ulong-show_ulong n h = rw (strtoul-show_ulong n h) refl

to_long-show_long : (z : ℤ) → IsLong z → to_long (show_long z) ≡ z
to_long-show_long z h = rw (strtol-show_long z h) refl

-- The keys of the file set one after another.
set_all : (name : Str) (m : ContainerMeta) → ContainerMeta
set_all name m = set_key (codes "state") (show_long m.state) (
    set_key (codes "pid") (show_long m.pid) (
      set_key (codes "cgroup") m.cgroup (
        set_key (codes "engine") m.engine (
          set_key (codes "cpu") (show_ulong m.cpu) (
            set_key (codes "memory") (show_ulong m.memory)
              (set_key (codes "id") m.id (set_key (codes "name") m.name (new_meta name))))))))

set_all_self : (name : Str) (m : ContainerMeta) → Storable m → set_all name m ≡ m
unfolding set_all set_key
set_all_self name m h =
    let cpu : m.cpu % 2 ^ 32 ≡ m.cpu = omega arith in
    let cpu_fits : m.cpu < 2 ^ 64 = omega arith in
    simp
      (
        to_ulong-show_ulong m.memory h.memory,
        to_ulong-show_ulong m.cpu cpu_fits,
        to_long-show_long m.pid h.pid,
        to_long-show_long m.state (IsInt-IsLong m.state h.state),
        to_int-IsInt m.state h.state,
        cpu,
      )
      refl

-- `LoadMeta` of what `SaveMeta` wrote gives the metadata back, where no text of it has a line break
-- and its numbers fit their C types, under whatever name the file is looked up.
pub load_meta-save_meta :
    (name : Str) (m : ContainerMeta) → Storable m → load_meta name (save_meta m) ≡ m
unfolding load_meta save_meta split_eq lines read_lines set_all
load_meta-save_meta name m h =
    read_lines-line_of (codes "name") m.name _ _ (omega arith) h.name refl
    ∙ read_lines-line_of (codes "id") m.id _ _ (omega arith) h.id refl
    ∙ read_lines-line_of (codes "memory") (show_ulong m.memory) _ _ (ground arith)
        (show_ulong-OneLine m.memory) refl
    ∙ read_lines-line_of (codes "cpu") (show_ulong m.cpu) _ _ (ground arith)
        (show_ulong-OneLine m.cpu) refl
    ∙ read_lines-line_of (codes "engine") m.engine _ _ (omega arith) h.engine refl
    ∙ read_lines-line_of (codes "cgroup") m.cgroup _ _ (omega arith) h.cgroup refl
    ∙ read_lines-line_of (codes "pid") (show_long m.pid) _ _ (ground arith)
        (show_long-OneLine m.pid) refl
    ∙ read_lines-line_of (codes "state") (show_long m.state) _ _ (ground arith)
        (show_long-OneLine m.state) refl
    ∙ set_all_self name m h
