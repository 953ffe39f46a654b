-- ===== src/Bridge/Policy/Bounds.antt =====
-- What the decisions of `nexus_policy_evaluate` may be, on every branch.
use nexus_db.Prelude.{
  ℕ, ◌+◌, ◌≤◌, ◌<◌, ◌≡◌, refl, ◌⊎◌, inl, inr, true, Option, none, some, arith, Bool-cases,
}
use nexus_db.Double.{Double}
use nexus_db.Bridge.Snapshot.{Snapshot}
use nexus_db.Bridge.Policy.{
  PolicyConfig, Policy, Decision, Action, sub_floor, add_sat, policy_config_valid, ceiling_frames,
  decide_shrink, decide_grow, decide, is_measured, clamped, evaluate,
}
use nexus_db.Bridge.Policy.Branches.{
  decide_unlimited, decide_high, decide_low, decide_between, evaluate_invalid, evaluate_unmeasured,
  evaluate_measured,
}

module _ (D : Double) where
  open D use {F, lt, le, lit}

  abbrev pub Holds : ℕ → Decision F → Type 0
  Holds current d = (d.action ≡ Action.hold) × (d.target_frames ≡ current)

  abbrev pub Shrinks : PolicyConfig F → ℕ → Decision F → Type 0
  Shrinks cfg current d =
      (d.action ≡ Action.shrink)
      × (le cfg.shrink_threshold d.pressure ≡ true)
      × (cfg.min_frames ≤ d.target_frames)
      × (d.target_frames < current)
      × (current ≤ d.target_frames + cfg.max_step_down)

  abbrev pub Grows : PolicyConfig F → ℕ → ℕ → Decision F → Type 0
  Grows cfg limit_bytes current d =
      (d.action ≡ Action.grow)
      × (le d.pressure cfg.grow_threshold ≡ true)
      × (current < d.target_frames)
      × (d.target_frames ≤ current + cfg.max_step_up)
      × (d.target_frames ≤ ceiling_frames D cfg limit_bytes)
      × ((cfg.max_frames ≡ 0) ⊎ (d.target_frames ≤ cfg.max_frames))

  -- The memory was measured and is limited.
  abbrev pub IsLimited : Snapshot F → Type 0
  IsLimited s = (is_measured D s ≡ true) × (s.has_limit ≡ true)

  abbrev pub Sound : PolicyConfig F → Option (Snapshot F) → ℕ → Decision F → Type 0
  Sound cfg snapshot current d =
      Holds current d
      ⊎ ((s : Snapshot F) × (snapshot ≡ some s) × IsLimited s × Shrinks cfg current d)
      ⊎ ((s : Snapshot F) × (snapshot ≡ some s) × IsLimited s × Grows cfg s.memory_max current d)

  decide_shrink_cases :
      (p : Policy) (cfg : PolicyConfig F) (current : ℕ) (pressure : F)
      → le cfg.shrink_threshold pressure ≡ true
      → (let d = (decide_shrink D p cfg current pressure).1 in
          Holds current d ⊎ Shrinks cfg current d)
  unfolding decide_shrink sub_floor
  decide_shrink_cases p cfg current pressure h = ground arith

  ceiling-le-max :
      (cfg : PolicyConfig F) (limit_bytes : ℕ)
      → (cfg.max_frames ≡ 0) ⊎ (ceiling_frames D cfg limit_bytes ≤ cfg.max_frames)
  unfolding ceiling_frames
  ceiling-le-max cfg limit_bytes = ground arith

  decide_grow_cases :
      (p : Policy) (cfg : PolicyConfig F) (limit_bytes current : ℕ) (pressure : F)
      → le pressure cfg.grow_threshold ≡ true
      → (let d = (decide_grow D p cfg (ceiling_frames D cfg limit_bytes) current pressure).1 in
          Holds current d ⊎ Grows cfg limit_bytes current d)
  unfolding decide_grow add_sat
  decide_grow_cases p cfg limit_bytes current pressure h =
      ground (arith, ceiling-le-max cfg limit_bytes)

  decide-Sound :
      (p : Policy) (cfg : PolicyConfig F) (s : Snapshot F) (current : ℕ) (pressure : F)
      → is_measured D s ≡ true
      → Sound cfg (some s) current (decide D p cfg s current pressure).1
  decide-Sound p cfg s current pressure h = elim (Bool-cases s.has_limit) [
    | inr e ↦ rw (decide_unlimited D p cfg s current pressure e) (inl (refl, refl))
    | inl e ↦ elim (Bool-cases (le cfg.shrink_threshold pressure)) [
      | inl k ↦
          rw (decide_high D p cfg s current pressure e k)
            (elim (decide_shrink_cases p cfg current pressure k) [
              | inl holds ↦ inl holds
              | inr shrinks ↦ inr (inl (s, refl, (h, e), shrinks))
            ])
      | inr k ↦ elim (Bool-cases (le pressure cfg.grow_threshold)) [
        | inr n ↦ rw (decide_between D p cfg s current pressure e k n) (inl (refl, refl))
        | inl n ↦
            rw (decide_low D p cfg s current pressure e k n)
              (elim (decide_grow_cases p cfg s.memory_max current pressure n) [
                | inl holds ↦ inl holds
                | inr grows ↦ inr (inr (s, refl, (h, e), grows))
              ])
      ]
    ]
  ]

  -- Whatever the policy's memory, the configuration, the snapshot and the capacity are, the
  -- decision is one of three. It holds, and its target is the current capacity. Or it shrinks: then
  -- memory was measured and is limited, the pressure reaches the shrink threshold, and the target
  -- is below the capacity, at least `min_frames`, and at most `max_step_down` below. Or it grows:
  -- then memory was measured and is limited, the pressure is at the grow threshold at most, and the
  -- target is above the capacity, at most `max_step_up` above, within the ceiling, and within
  -- `max_frames` where that is not 0.
  pub evaluate-Sound :
      (p : Policy) (cfg : PolicyConfig F) (s : Option (Snapshot F)) (current : ℕ)
      → Sound cfg s current (evaluate D p cfg s current).2
  unfolding evaluate
  evaluate-Sound p cfg none current = ground arith
  evaluate-Sound p cfg (some s) current = elim (Bool-cases (policy_config_valid D cfg)) [
    | inr e ↦ rw (evaluate_invalid D p cfg s current e) (inl (refl, refl))
    | inl e ↦ elim (Bool-cases (is_measured D s)) [
      | inr k ↦ rw (evaluate_unmeasured D p cfg s current e k) (inl (refl, refl))
      | inl k ↦
          rw (evaluate_measured D p cfg s current e k)
            (decide-Sound p cfg s current (clamped D s.memory_pressure) k)
    ]
  ]
