-- ===== src/Cgroup/Drain.antt =====
-- A cgroup with a live process is never destroyed.
use nexus_db.Prelude.{
  ℕ, zero, suc, ◌≤◌, ◌≡◌, ◌≢◌, refl, inl, inr, Bool, true, false, Option, some, Str, codes, length,
  ℤ, arith, Option-cases, Bool-cases,
}
use nexus_db.Prelude.Scan.{scan_word}
use nexus_db.Prelude.Scan.RoundTrip.{scan_word-lt}
use nexus_db.Rc.{Rc}
use nexus_db.Os.{Os}
use nexus_db.Cgroup.{is_blank, text_of, build_child_path}
use nexus_db.Cgroup.Procs.{is_live_token, live_loop, procs_has_live, remove_dir, cgroup_destroy}

-- The words that `fscanf(f, "%63s", tok)` delivers from a text, one after the other.
pub data Word : Str → Str → Type 0 where
  here : {text tok rest : Str} → scan_word 63 text ≡ some (tok, rest) → Word text tok
  later :
      {text tok tok' rest : Str}
      → scan_word 63 text ≡ some (tok', rest)
      → Word rest tok
      → Word text tok

module _ (os : Os) (alive : ℤ → os.World → Bool) (w : os.World) where
  live_loop-Word :
      (fuel : ℕ) (text tok : Str)
      → length text ≤ fuel
      → Word text tok
      → is_live_token os alive w tok ≡ true
      → live_loop os alive w fuel text ≡ true
  unfolding live_loop
  live_loop-Word zero text tok h (here {rest = rest} e) live =
      absurd (omega (arith, scan_word-lt 63 text tok rest e))
  live_loop-Word zero text tok h (later {tok' = tok'} {rest = rest} e word) live =
      absurd (omega (arith, scan_word-lt 63 text tok' rest e))
  live_loop-Word (suc fuel) text tok h (here e) live = rw (e, live, live_loop) refl
  live_loop-Word (suc fuel) text tok h (later {tok' = tok'} {rest = rest} e word) live =
      let shorter = scan_word-lt 63 text tok' rest e in
      let found = live_loop-Word fuel rest tok (omega arith) word live in
      elim (Bool-cases (is_live_token os alive w tok')) [
        | inl k ↦ rw (e, k, live_loop) refl
        | inr k ↦ rw (e, k, live_loop) found
      ]

  live_loop-quiet :
      (fuel : ℕ) (text : Str)
      → ((tok : Str) → Word text tok → is_live_token os alive w tok ≡ false)
      → live_loop os alive w fuel text ≡ false
  unfolding live_loop
  live_loop-quiet zero text quiet = refl
  live_loop-quiet (suc fuel) text quiet = elim (Option-cases (scan_word 63 text)) [
    | inl e ↦ rw (e, live_loop) refl
    | inr ((tok, rest), e) ↦
        rw (e, quiet tok (here e), live_loop)
          (live_loop-quiet fuel rest (λ t word. quiet t (later e word)))
  ]

  remove_dir_rc : (dir : Str) (w' : os.World) → (remove_dir os alive dir w').0 ≢ Rc.illegal_state
  unfolding remove_dir
  remove_dir_rc dir w' = ground arith

  procs_has_live_quiet :
      (dir text : Str)
      → os.read (build_child_path dir (codes "cgroup.procs")) w ≡ some text
      → live_loop os alive w (length text) text ≡ false
      → (procs_has_live os alive dir w).0 ≡ false
  unfolding procs_has_live
  procs_has_live_quiet dir text e quiet = rw (e, quiet, procs_has_live) ground arith

  -- If a word of cgroup.procs counts as live (it is the pid of a process, or no pid at all), then
  -- `cgroup_destroy` refuses with NEXUS_ERR_STATE and changes nothing.
  pub destroy_live :
      (dir : Option Str) (text tok : Str)
      → is_blank dir ≡ false
      → os.read (build_child_path (text_of dir) (codes "cgroup.procs")) w ≡ some text
      → Word text tok
      → is_live_token os alive w tok ≡ true
      → cgroup_destroy os alive dir w ≡ (Rc.illegal_state, w)
  unfolding cgroup_destroy procs_has_live
  destroy_live dir text tok named e word live =
      let found = live_loop-Word (length text) text tok (omega arith) word live in
      rw (named, e, found, procs_has_live) refl

  -- If no word of cgroup.procs counts as live, then `cgroup_destroy` goes on to remove the
  -- directory: it never refuses with NEXUS_ERR_STATE.
  destroy_drained :
      (dir : Option Str) (text : Str)
      → os.read (build_child_path (text_of dir) (codes "cgroup.procs")) w ≡ some text
      → ((tok : Str) → Word text tok → is_live_token os alive w tok ≡ false)
      → (cgroup_destroy os alive dir w).0 ≢ Rc.illegal_state
  unfolding cgroup_destroy
  destroy_drained dir text e quiet =
      let none_found = live_loop-quiet (length text) text quiet in
      let drained = procs_has_live_quiet (text_of dir) text e none_found in
      elim (Bool-cases (is_blank dir)) [
        | inl k ↦ rw (k, cgroup_destroy) (λ h. cc)
        | inr k ↦ rw (k, drained, cgroup_destroy) (remove_dir_rc (text_of dir) _)
      ]
