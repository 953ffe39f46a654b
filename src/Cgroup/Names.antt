-- ===== src/Cgroup/Names.antt =====
-- Where `cgroup_create` makes its directory.
use nexus_db.Prelude.{
  ℕ, ◌<◌, ◌≡◌, subst, ◌≢◌, refl, ◌++◌, true, false, Option, none, some, [], ◌∷◌, Str, codes, length,
  All, arith,
}
use nexus_db.Rc.{Rc}
use nexus_db.Os.{Os}
use nexus_db.Container.Types.{name_max}
use nexus_db.Cgroup.{
  no_separator, cgroup_name_valid, get_root, create_at, cgroup_create, root_of_env,
}

-- One component of a path: not empty, not "." or "..", and without separators.
pub record IsComponent (name : Str) : Type 0 where
  pub named : 0 < length name
  pub short : length name < name_max
  pub not_here : name ≢ codes "."
  pub not_up : name ≢ codes ".."
  pub flat : All (λ ch. (ch ≢ b'/') × (ch ≢ b'\\')) name

no_separator-All :
    (name : Str) → no_separator name ≡ true → All (λ ch. (ch ≢ b'/') × (ch ≢ b'\\')) name
no_separator-All [] h = tt
no_separator-All (ch ∷ name) h = ground (arith, no_separator-All name)

name_valid-IsComponent : (name : Str) → cgroup_name_valid (some name) ≡ true → IsComponent name
unfolding cgroup_name_valid
name_valid-IsComponent name h = record {
  named = ground arith;
  short = ground arith;
  not_here = λ e. invalid (codes ".") e refl;
  not_up = λ e. invalid (codes "..") e refl;
  flat = no_separator-All name (ground arith);
}
  where
    invalid : (other : Str) → name ≡ other → cgroup_name_valid (some other) ≡ false → ⊥
    invalid other e k = let h' = subst (λ n. cgroup_name_valid (some n) ≡ true) e h in cc

-- The root is set from then on, and it is not empty.
root_of_env-Kept :
    (os : Os) (env : Option Str) (w : os.World) → get_root os (root_of_env env) w ≡ root_of_env env
unfolding get_root
root_of_env-Kept os none w = refl
root_of_env-Kept os (some []) w = refl
root_of_env-Kept os (some (c ∷ s)) w = refl

get_root-Kept :
    (os : Os) (root : Str) (w w' : os.World)
    → get_root os (get_root os root w) w' ≡ get_root os root w
unfolding get_root
get_root-Kept os [] w w' = root_of_env-Kept os (os.getenv (codes "NEXUS_CGROUP_ROOT") w) w'
get_root-Kept os (c ∷ root) w w' = refl

module _ (os : Os) where
  create_at_ok :
      (name : Str) (len : ℕ) (root root' : Str) (w w' : os.World) (out : Option Str)
      → create_at os name len root w ≡ (Rc.ok, out, root', w')
      → (root' ≡ get_root os root w)
        × (out ≡ some (root' ++ (b'/' ∷ name)))
        × (length (root' ++ (b'/' ∷ name)) < len)
  unfolding create_at
  create_at_ok name len root root' w w' out h = ground arith

  -- If `cgroup_create` returns NEXUS_OK, then `out_path` holds the root, a slash and the name
  -- without truncation, the name is one path component, so the directory is directly below the
  -- root, and it is the root that `get_root` gives from then on.
  pub cgroup_create_ok :
      (name : Str) (len : ℕ) (root root' : Str) (w w' : os.World) (out : Option Str)
      → cgroup_create os (some name) (some len) root w ≡ (Rc.ok, out, root', w')
      → (root' ≡ get_root os root w)
        × (out ≡ some (root' ++ (b'/' ∷ name)))
        × (length (root' ++ (b'/' ∷ name)) < len)
        × IsComponent name
        × (get_root os root' w' ≡ root')
  unfolding cgroup_create
  cgroup_create_ok name len root root' w w' out h =
      let valid : cgroup_name_valid (some name) ≡ true = ground arith in
      let (e, o, l) = create_at_ok name len root root' w w' out (ground arith) in
      (e, o, l, name_valid-IsComponent name valid, rw e (get_root-Kept os root w w'))
