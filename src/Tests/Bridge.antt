-- ===== src/Tests/Bridge.antt =====
-- The bridge: its decisions at concrete readings, and its theorems there.
use nexus_db.Prelude.{ℕ, ◌+◌, ◌≡◌, refl, inl, true, false, none, some, [], ◌∷◌, arith}
use nexus_db.Rc.{Rc}
use nexus_db.Bridge.Snapshot.{Snapshot}
use nexus_db.Bridge.Policy.{
  PolicyConfig, Action, Reason, policy_init, sub_floor, policy_config_default, policy_config_valid,
  ceiling_raw, ceiling_frames, holding, decide_shrink, decide, evaluate, apply, issued,
}
use nexus_db.Bridge.Policy.Bounds.{Sound, evaluate-Sound}
use nexus_db.Bridge.Policy.Rounds.{rounds, rounds_shrink, rounds_grow}
use nexus_db.Bridge.Policy.Retry.{apply_retry}
use nexus_db.Tests.Fixed.{fixed, fixed-IsDouble}

abbrev config : PolicyConfig ℕ
config = record {
  shrink_threshold = 8500;
  grow_threshold = 6000;
  pool_fraction = 6000;
  page_size = 4096;
  min_frames = 16;
  max_frames = 0;
  max_step_down = 256;
  max_step_up = 256;
}

default_config : policy_config_default fixed ≡ config
unfolding policy_config_default
default_config = refl

-- A reading of 8 MiB at most, with this pressure.
abbrev reading : ℕ → Snapshot ℕ
reading pressure = record {
  valid = true;
  has_memory = true;
  has_limit = true;
  has_cpu = false;
  memory_current = 7549747;
  memory_max = 8388608;
  cpu_usage_usec = 0;
  memory_pressure = pressure;
}

ceiling_8_mib : ceiling_frames fixed config 8388608 ≡ 1228
unfolding ceiling_frames ceiling_raw
ceiling_8_mib = refl

evaluate-Sound_example :
    Sound fixed config
      (some (reading 9000))
      400
      (evaluate fixed policy_init config (some (reading 9000)) 400).2
evaluate-Sound_example = evaluate-Sound fixed policy_init config (some (reading 9000)) 400

rounds_shrink_example :
    (rounds fixed config (reading 9000 ∷ reading 9999 ∷ []) (policy_init, 400)).1 ≡ 16
unfolding policy_config_valid policy_init
rounds_shrink_example =
    rounds_shrink fixed config refl (reading 9000 ∷ reading 9999 ∷ []) policy_init 400
      (
        record { measured = refl; limited = refl; high = refl },
        (record { measured = refl; limited = refl; high = refl }, tt),
      )
      (omega arith) (inl refl)

rounds_grow_example :
    (rounds fixed config (reading 1000 ∷ reading 2000 ∷ []) (policy_init, 100)).1 ≡ 612
unfolding policy_config_valid policy_init ceiling_frames ceiling_raw
rounds_grow_example =
    rounds_grow fixed config refl 8388608 (reading 1000 ∷ reading 2000 ∷ []) policy_init 100
      fixed-IsDouble (omega arith)
      (
        record { measured = refl; limited = refl; not_high = refl; low = refl; limit = refl },
        (record { measured = refl; limited = refl; not_high = refl; low = refl; limit = refl }, tt),
      )
      (omega arith) (inl refl)

-- An engine that counts the requests it refuses.
abbrev refuse : ℕ → ℕ → Rc × ℕ
refuse engine target = (Rc.process, engine + 1)

apply_retry_example :
    (let (rc, p', d, engine') =
        apply fixed policy_init config (some (reading 9000)) 400 (some refuse) 0 in
      ((rc, engine') ≡ refuse 0 144)
      × (d ≡ record {
        action = Action.shrink;
        target_frames = 144;
        pressure = 9000;
        reason = Reason.request_failed;
      })
      × (evaluate fixed p' config (some (reading 9000)) 400
          ≡ evaluate fixed policy_init config (some (reading 9000)) 400))
unfolding evaluate policy_config_valid decide decide_shrink sub_floor policy_init
apply_retry_example = apply_retry fixed policy_init config (reading 9000) 400 refuse 0 refl refl

-- Without a callback the request fails, but it is remembered: the next one is suppressed.
apply_without_callback :
    (let (rc, p', d, _) = apply fixed {E = ℕ} policy_init config (some (reading 9000)) 400 none 0 in
      (rc ≡ Rc.invalid)
      × (evaluate fixed p' config (some (reading 9000)) 400
          ≡ (Rc.ok, issued fixed 144, holding fixed 400 9000 Reason.duplicate)))
unfolding apply evaluate policy_config_valid decide decide_shrink sub_floor policy_init
apply_without_callback = (refl, refl)
