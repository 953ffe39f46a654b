-- ===== src/Cgroup/Procs.antt =====
-- `procs_has_live` and `cgroup_destroy`.
use nexus_db.Prelude.{
  ℕ, zero, suc, Bool, true, false, not, ◌||◌, Option, none, some, List, [], ◌∷◌, Str, codes, length,
  is_some, ◌==◌, if◌then◌else◌, ℤ, is_pos,
}
use nexus_db.Prelude.Scan.{Scanned, strtol, scan_word}
use nexus_db.Rc.{Rc}
use nexus_db.Os.{Os, Stat, enoent}
use nexus_db.Cgroup.{is_blank, text_of, build_child_path}
use nexus_db.Cgroup.Metrics.{has_rest}

module _ (os : Os) (process_is_alive : ℤ → os.World → Bool) where
  open os use {World, fopen_write, fclose, read, rmdir, remove, stat}

  abbrev live_number : World → Option (Scanned ℤ) → Bool
  live_number w none = true
  live_number w (some v) =
      v.out_of_range || has_rest v.rest || not (is_pos v.value) || process_is_alive v.value w

  -- A word of cgroup.procs counts as live if it is no number above 0, or is the pid of a process.
  unfoldable pub is_live_token : World → Str → Bool
  is_live_token w tok = live_number w (strtol tok)

  -- The loop over cgroup.procs. Each round reads a word, so the length of the text is fuel enough.
  unfoldable pub live_loop : World → ℕ → Str → Bool
  live_loop w zero text = false
  live_loop w (suc fuel) text = elim (scan_word 63 text) [
    | none ↦ false
    | some word ↦
        let rest = live_loop w fuel word.1 in if is_live_token w word.0 then true else rest
  ]

  -- `f = fopen(file_path, "w"); if (f) fclose(f);`
  unfoldable pub truncate : Str → World → World
  truncate path w =
      let (file, w1) = fopen_write path w in elim file [ none ↦ w1 | some f ↦ (fclose f w1).1 ]

  unfoldable pub procs_has_live : Str → World → Bool × World
  procs_has_live dir w =
      let path = build_child_path dir (codes "cgroup.procs") in
      elim (read path w) [
        | none ↦ (false, w)
        | some text ↦
            if live_loop w (length text) text
            then (true, w)
            else if is_some (scan_word 63 text)
            then (false, truncate path w)
            else (false, w)
      ]

  abbrev pub shim_files : List Str
  shim_files =
      codes "memory.max"
      ∷ codes "memory.current"
      ∷ codes "cpu.max"
      ∷ codes "cpu.stat"
      ∷ codes "cgroup.procs"
      ∷ []

  unfoldable pub remove_files : Str → List Str → World → World
  remove_files dir [] w = w
  remove_files dir (file ∷ files) w =
      remove_files dir files (remove (build_child_path dir file) w).1

  abbrev is_gone : Stat → Bool
  is_gone (Stat.failed errno) = errno == enoent
  is_gone _ = false

  unfoldable pub remove_dir : Str → World → Rc × World
  remove_dir dir w =
      let (error, w1) = rmdir dir w in
      elim error [
        | none ↦ (Rc.ok, w1)
        | some errno ↦
            if errno == enoent
            then (Rc.ok, w1)
            else if is_gone (stat dir w1)
            then (Rc.ok, w1)
            else (Rc.process, w1)
      ]

  unfoldable pub cgroup_destroy : Option Str → World → Rc × World
  cgroup_destroy cgroup_path w =
      let dir = text_of cgroup_path in
      let (live, w1) = procs_has_live dir w in
      if is_blank cgroup_path
      then (Rc.invalid, w)
      else if live
      then (Rc.illegal_state, w1)
      else remove_dir dir (remove_files dir shim_files w1)
