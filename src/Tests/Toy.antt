-- ===== src/Tests/Toy.antt =====
-- A host whose world counts the calls that change it: every call succeeds, but that attaching the
-- child with an even pid fails. Spawned children have the world's number plus one as their pid.
use nexus_db.Prelude.{
  ℕ, ◌+◌, ◌%◌, ◌++◌, Bool, true, false, none, ◌==◌, if◌then◌else◌, codes, ℤ, pos, negsuc,
}
use nexus_db.Rc.{Rc}
use nexus_db.Container.Host.{Host}

abbrev is_even : ℤ → Bool
is_even (pos n) = n % 2 == 0
is_even (negsuc n) = false

abbrev pub toy : Host ℕ
toy = record {
  World = ℕ;
  Gate = ℕ;
  cgroup_init = λ _ w. (Rc.ok, w + 1);
  cgroup_create = λ name _ w. (Rc.ok, codes "/cg/" ++ name, w + 1);
  cgroup_set_limits = λ _ _ _ w. (Rc.ok, w + 1);
  cgroup_attach = λ _ pid w. (if is_even pid then Rc.process else Rc.ok, w + 1);
  cgroup_read_metrics = λ _ w. (
    Rc.ok,
    record { memory_current = 600; memory_max = 1000; cpu_usage_usec = 5; memory_pressure = 60 },
    w,
  );
  cgroup_destroy = λ _ w. (Rc.ok, w + 1);
  process_is_alive = λ _ _. false;
  process_stop = λ _ w. (true, w + 1);
  process_spawn_gated = λ _ _ w. (pos (w + 1), w, w + 1);
  process_gate_release = λ gate w. (pos (gate + 1), w + 1);
  process_gate_abort = λ _ w. w + 1;
  getenv = λ _ _. none;
  time = λ w. pos w;
}
