-- ===== src/Cgroup/Files.antt =====
-- The files of a cgroup: their paths differ, and what the kernel keeps of a limit.
use nexus_db.Prelude.{
  ℕ, ◌*◌, ◌/◌, ◌^◌, ◌+◌, ◌<◌, ◌≡◌, ◌≢◌, sym, ap, ◌∙◌, ◌++◌, [], ◌∷◌, true, false, some, Str, codes,
  length, str_eq, str_eq_iff, inl, inr, copy_into_self, arith, length-append, Option-cases,
  Bool-cases,
}
use nexus_db.Prelude.Numerals.{show_ulong}
use nexus_db.Os.{Os}
use nexus_db.Container.Types.{path_max}
use nexus_db.Cgroup.{build_child_path, write_file_str}

append-cancel : (s t u : Str) → s ++ t ≡ s ++ u → t ≡ u
append-cancel [] t u h = h
append-cancel (c ∷ s) t u h = append-cancel s t u cc

-- The array of the caller is large enough for the path of this file.
abbrev pub Fits : Str → Str → Type 0
Fits dir file = length dir + length file < path_max + 31

build_child_path-Fits :
    (dir file : Str) → Fits dir file → build_child_path dir file ≡ dir ++ (b'/' ∷ file)
unfolding build_child_path
build_child_path-Fits dir file h =
    copy_into_self (path_max + 32) (dir ++ (b'/' ∷ file))
      (omega (arith, length-append dir (b'/' ∷ file)))

-- Different files have different paths.
pub build_child_path-cancel :
    (dir file file' : Str)
    → Fits dir file
    → Fits dir file'
    → str_eq file file' ≡ false
    → build_child_path dir file ≢ build_child_path dir file'
build_child_path-cancel dir file file' h h' n e =
    let paths : dir ++ (b'/' ∷ file) ≡ dir ++ (b'/' ∷ file') =
      sym (build_child_path-Fits dir file h) ∙ e ∙ build_child_path-Fits dir file' h' in
    let rooted : b'/' ∷ file ≡ b'/' ∷ file' = append-cancel dir _ _ paths in
    let same : file ≡ file' = cc in let equal = (str_eq_iff file file').1 same in cc

pub with_first : {A B : Type 0} (p : A × B) (a : A) → p.0 ≡ a → p ≡ (a, p.1)
with_first p a e = ap (λ x. (x, p.1)) e

-- What a write that is opened, printed and closed without an error is.
pub record WrittenTo (os : Os) (path text : Str) (w w3 : os.World) : Type 0 where
  pub file : os.File
  pub w1 : os.World
  pub w2 : os.World
  pub opened : os.fopen_write path w ≡ (some file, w1)
  pub printed : os.fprintf file text w1 ≡ (true, w2)
  pub closed : os.fclose file w2 ≡ (true, w3)

-- What the kernel documents of memory.max, for pages of 4096 bytes: a limit of bytes is kept in
-- whole pages (below the largest that a page counter holds), "max" is kept, and a write to cpu.max
-- does not touch it.
pub record KeepsLimits (os : Os) : Type 0 where
  pub limited :
      (dir : Str) (n : ℕ) (w w' : os.World)
      → n + 4096 < 2 ^ 63
      → WrittenTo os (build_child_path dir (codes "memory.max")) (show_ulong n ++ codes "\n") w w'
      → os.read (build_child_path dir (codes "memory.max")) w'
        ≡ some (show_ulong (n / 4096 * 4096) ++ codes "\n")
  pub unlimited :
      (dir : Str) (w w' : os.World)
      → WrittenTo os (build_child_path dir (codes "memory.max")) (codes "max\n") w w'
      → os.read (build_child_path dir (codes "memory.max")) w' ≡ some (codes "max\n")
  pub apart :
      (dir text : Str) (w w' : os.World)
      → build_child_path dir (codes "memory.max") ≢ build_child_path dir (codes "cpu.max")
      → WrittenTo os (build_child_path dir (codes "cpu.max")) text w w'
      → os.read (build_child_path dir (codes "memory.max")) w'
        ≡ os.read (build_child_path dir (codes "memory.max")) w

pub write_file_str_ok :
    (os : Os) (path value : Str) (w w' : os.World)
    → write_file_str os path value w ≡ (true, w')
    → WrittenTo os path (value ++ codes "\n") w w'
unfolding write_file_str
write_file_str_ok os path value w w' =
    let opened = os.fopen_write path w in
    elim (Option-cases opened.0) [
      | inl e ↦ rw (e, write_file_str) (λ h. cc)
      | inr (f, e) ↦
          let printed = os.fprintf f (value ++ codes "\n") opened.1 in
          elim (Bool-cases printed.0) [
            | inr k ↦ rw (e, k, write_file_str) (λ h. cc)
            | inl k ↦
                rw (e, k, write_file_str)
                  (λ h. record {
                    file = f;
                    w1 = opened.1;
                    w2 = printed.1;
                    opened = with_first opened (some f) e;
                    printed = with_first printed true k;
                    closed = h;
                  })
          ]
    ]
