-- ===== src/Tests/Cgroup.antt =====
-- The cgroup controller on a disk, and its theorems there.
use nexus_db.Prelude.{
  ℕ, ◌≡◌, refl, sym, subst, Bool, false, Option, none, some, Str, codes, ◌<◌, ℤ, pos, length, [],
  ◌++◌, if◌then◌else◌, str_eq, ◌==◌, negsuc,
}
use nexus_db.Prelude.Scan.{scan_word, strtoul, strtol}
use nexus_db.Rc.{Rc}
use nexus_db.Container.Types.{CgroupMetrics}
use nexus_db.Cgroup.{
  build_child_path, cgroup_create, create_at, get_root, cgroup_name_valid, mkdir_usable,
}
use nexus_db.Cgroup.Metrics.{usage_of, usage_loop}
use nexus_db.Cgroup.Procs.{cgroup_destroy, is_live_token}
use nexus_db.Cgroup.Names.{IsComponent, cgroup_create_ok}
use nexus_db.Cgroup.Usage.{usage_loop_enough}
use nexus_db.Cgroup.Drain.{Word, destroy_live}
use nexus_db.Tests.Disk.{disk}

-- A cgroup at /c with 500 bytes in use and the processes 12 and 7.
abbrev kernel : Str → Option Str
kernel path =
    if str_eq path (codes "/c/memory.current")
    then some (codes "500\n")
    else if str_eq path (codes "/c/cpu.stat")
    then some (codes "nr_periods 3\nusage_usec 42\n")
    else if str_eq path (codes "/c/cgroup.procs")
    then some (codes "12\n7\n")
    else none

abbrev cgroup : Option Str
cgroup = some (codes "/c")

abbrev blank : CgroupMetrics ℕ
blank = record { memory_current = 0; memory_max = 0; cpu_usage_usec = 0; memory_pressure = 0 }

usage_42 : usage_of (kernel (codes "/c/cpu.stat")) ≡ 42
unfolding usage_of usage_loop scan_word strtoul
usage_42 = refl

abbrev pages_used : Str → Option Str
pages_used path = if str_eq path (codes "/c/memory.current") then some (codes "8192\n") else none

abbrev alive : ℤ → (Str → Option Str) → Bool
alive (pos n) _ = n == 7
alive (negsuc n) _ = false

destroy_live_example : cgroup_destroy disk alive cgroup kernel ≡ (Rc.illegal_state, kernel)
unfolding build_child_path scan_word is_live_token strtol
destroy_live_example =
    destroy_live disk alive kernel cgroup (codes "12\n7\n") (codes "7") refl refl
      (Word.later refl (Word.here refl)) refl

cgroup_create_ok_example :
    (let root = get_root disk [] kernel in
      (root ≡ get_root disk [] kernel)
      × (some (codes "/sys/fs/cgroup/nexusdb/web") ≡ some (root ++ codes "/web"))
      × (length (root ++ codes "/web") < 256)
      × IsComponent (codes "web")
      × (get_root disk root kernel ≡ root))
unfolding cgroup_create create_at cgroup_name_valid get_root mkdir_usable
cgroup_create_ok_example =
    cgroup_create_ok disk (codes "web") 256 [] (get_root disk [] kernel) kernel kernel
      (some (codes "/sys/fs/cgroup/nexusdb/web")) refl

-- Without live processes the cgroup can go.
abbrev all_dead : ℤ → (Str → Option Str) → Bool
all_dead _ _ = false

abbrev one_dead : Str → Option Str
one_dead _ = some (codes "12\n")

no_more_words : (tok : Str) → Word (codes "\n") tok → ⊥
unfolding scan_word
no_more_words tok (Word.here e) = cc
no_more_words tok (Word.later e word) = cc

only_the_dead :
    (tok : Str) → Word (codes "12\n") tok → is_live_token disk all_dead one_dead tok ≡ false
unfolding scan_word is_live_token strtol
only_the_dead tok (Word.here e) =
    let same : codes "12" ≡ tok = cc in
    subst (λ t. is_live_token disk all_dead one_dead t ≡ false) same refl
only_the_dead tok (Word.later e word) =
    let rest : codes "\n" ≡ _ = cc in
    absurd (no_more_words tok (subst (λ t. Word t tok) (sym rest) word))

usage_loop_enough_example :
    (n : ℕ) × ((fuel : ℕ)
      → length (codes "a 1\nusage_usec 42\n") < fuel
      → usage_loop fuel (codes "a 1\nusage_usec 42\n") ≡ some n)
usage_loop_enough_example = usage_loop_enough (codes "a 1\nusage_usec 42\n")
