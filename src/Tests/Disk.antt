-- ===== src/Tests/Disk.antt =====
-- A machine whose files are a function on paths: every call succeeds, and directories are not kept.
use nexus_db.Prelude.{
  ℕ, ◌*◌, ◌/◌, ◌^◌, ◌<◌, codes, arith, ◌≡◌, ◌≢◌, refl, sym, ap, ◌∙◌, ◌++◌, true, Option, none, some,
  [], Str, str_eq, str_eq_iff, if◌then◌else◌, Bool-cases, inl, inr,
}
use mathlib.Core.Option
use nexus_db.Prelude.Numerals.{show_ulong}
use nexus_db.Prelude.Scan.{scan_word, strtoul}
use nexus_db.Prelude.Scan.RoundTrip.{scan_word-show_ulong, strtoul-show_ulong}
use nexus_db.Os.{Os, Stat}
use nexus_db.Cgroup.{build_child_path}
use nexus_db.Cgroup.Files.{WrittenTo, KeepsLimits}

abbrev Files : Type 0
Files = Str → Option Str

abbrev pub put : Str → Str → Files → Files
put path text files other = if str_eq other path then some text else files other

abbrev held : Option Str → Str
held none = []
held (some text) = text

abbrev pub disk : Os
disk = record {
  World = Files;
  File = Str;
  fopen_write = λ path w. (some path, put path [] w);
  fprintf = λ f text w. (true, put f (held (w f) ++ text) w);
  fclose = λ _ w. (true, w);
  read = λ path w. w path;
  mkdir = λ _ w. (none, w);
  rmdir = λ _ w. (none, w);
  remove = λ _ w. (true, w);
  stat = λ _ _. Stat.directory;
  getenv = λ _ _. none;
}

put_same : (path text : Str) (w : Files) → put path text w path ≡ some text
put_same path text w = rw ((str_eq_iff path path).1 refl) refl

put_other : (path text other : Str) (w : Files) → other ≢ path → put path text w other ≡ w other
put_other path text other w h = elim (Bool-cases (str_eq other path)) [
  | inl e ↦ absurd (h ((str_eq_iff other path).0 e))
  | inr e ↦ rw e refl
]

-- The files after opening, writing and closing.
written_files :
    (path text f : Str) (w w1 w2 w3 : Files)
    → disk.fopen_write path w ≡ (some f, w1)
    → disk.fprintf f text w1 ≡ (true, w2)
    → disk.fclose f w2 ≡ (true, w3)
    → w3 ≡ put path text (put path [] w)
written_files path text f w w1 w2 w3 h1 h2 h3 =
    let e1 : put path [] w ≡ w1 = ap (λ x. x.1) h1 in
    let k : path ≡ f = cc in
    let e2 : put f (held (w1 f) ++ text) w1 ≡ w2 = ap (λ x. x.1) h2 in
    let e3 : w2 ≡ w3 = ap (λ x. x.1) h3 in
    sym e3
    ∙ sym e2
    ∙ ap (λ x. put f (held (x f) ++ text) x) (sym e1)
    ∙ ap (λ x. put x (held (put path [] w x) ++ text) (put path [] w)) (sym k)
    ∙ ap (λ o. put path (held o ++ text) (put path [] w)) (put_same path [] w)

-- Numbers are kept in whole pages.
unfoldable pub rounded : Str → Str
rounded text = elim (scan_word 31 text) [
  | none ↦ text
  | some (key, rest) ↦ elim (strtoul key) [
    | none ↦ text
    | some n ↦ show_ulong (n.value / 4096 * 4096) ++ codes "\n"
  ]
]

-- The machine whose files keep numbers so.
abbrev pub paged : Os
paged = record disk { read = λ path w. Option.map rounded (w path) }

rounded-show_ulong :
    (n : ℕ)
    → n < 2 ^ 64
    → rounded (show_ulong n ++ codes "\n") ≡ show_ulong (n / 4096 * 4096) ++ codes "\n"
unfolding rounded
rounded-show_ulong n h =
    rw (rounded, scan_word-show_ulong 31 n 10 [] (omega arith) refl, strtoul-show_ulong n h) refl

rounded_max : rounded (codes "max\n") ≡ codes "max\n"
unfolding rounded scan_word strtoul
rounded_max = refl

paged_files :
    (path text : Str) (w w' : Files)
    → WrittenTo paged path text w w'
    → w' ≡ put path text (put path [] w)
paged_files path text w w' d =
    written_files path text d.file w d.w1 d.w2 w' d.opened d.printed d.closed

pub paged-KeepsLimits : KeepsLimits paged
paged-KeepsLimits = record {
  limited = λ dir n w w' h d.
      let path = build_child_path dir (codes "memory.max") in
      let text = show_ulong n ++ codes "\n" in
      ap (λ (x : Files). Option.map rounded (x path)) (paged_files path text w w' d)
      ∙ ap (Option.map rounded) (put_same path text (put path [] w))
      ∙ ap (λ t. some t) (rounded-show_ulong n (omega arith));
  unlimited = λ dir w w' d.
      let path = build_child_path dir (codes "memory.max") in
      ap (λ (x : Files). Option.map rounded (x path)) (paged_files path (codes "max\n") w w' d)
      ∙ ap (Option.map rounded) (put_same path (codes "max\n") (put path [] w))
      ∙ ap (λ t. some t) rounded_max;
  apart = λ dir text w w' ne d.
      let path = build_child_path dir (codes "cpu.max") in
      let other = build_child_path dir (codes "memory.max") in
      ap (λ (x : Files). Option.map rounded (x other)) (paged_files path text w w' d)
      ∙ ap (Option.map rounded)
          (put_other path text other (put path [] w) ne ∙ put_other path [] other w ne);
}
