-- ===== src/Bridge/Policy/Rounds.antt =====
-- Rounds of `nexus_policy_apply` over an engine that grants every request: under steady pressure
-- the pool reaches its floor, and without pressure its ceiling.
use Prim.Native.Nat.{min, max}
use nexus_db.Prelude.{
  ℕ, ◌+◌, ◌-◌, ◌*◌, ◌≤◌, ◌≡◌, sym, ap, ◌∙◌, ◌⊎◌, inl, inr, true, false, some, List, [], ◌∷◌, arith,
  length, All, Bool-cases,
}
use nexus_db.Rc.{Rc}
use nexus_db.Double.{Double, IsDouble, ulong_max}
use nexus_db.Bridge.Snapshot.{Snapshot}
use nexus_db.Bridge.Policy.{
  PolicyConfig, Policy, Decision, sub_floor, add_sat, policy_config_valid, ceiling_raw,
  ceiling_frames, decide_shrink, decide_grow, is_measured, clamped, evaluate, apply, is_hold,
}
use nexus_db.Bridge.Policy.Branches.{decide_high, decide_low, evaluate_measured}

-- An engine that is its capacity and takes the one that it is asked for.
abbrev pub grant : ℕ → ℕ → Rc × ℕ
grant capacity target = (Rc.ok, target)

module _ (D : Double) (cfg : PolicyConfig D.F) where
  open D use {F, le}

  -- One `nexus_policy_apply` on the capacity that the engine has.
  unfoldable pub round : Snapshot F → Policy × ℕ → Policy × ℕ
  round s (p, capacity) =
      let (_, p', _, capacity') = apply D p cfg (some s) capacity (some grant) capacity in
      (p', capacity')

  unfoldable pub rounds : List (Snapshot F) → Policy × ℕ → Policy × ℕ
  rounds [] state = state
  rounds (s ∷ ss) state = rounds ss (round s state)

  -- The memory is measured and limited, and the pressure reaches the shrink threshold.
  pub record IsHigh (s : Snapshot F) : Type 0 where
    pub measured : is_measured D s ≡ true
    pub limited : s.has_limit ≡ true
    pub high : le cfg.shrink_threshold (clamped D s.memory_pressure) ≡ true

  -- The memory is measured, limited to `limit_bytes`, and the pressure is below the shrink and at
  -- the grow threshold at most.
  pub record IsLow (limit_bytes : ℕ) (s : Snapshot F) : Type 0 where
    pub measured : is_measured D s ≡ true
    pub limited : s.has_limit ≡ true
    pub not_high : le cfg.shrink_threshold (clamped D s.memory_pressure) ≡ false
    pub low : le (clamped D s.memory_pressure) cfg.grow_threshold ≡ true
    pub limit : s.memory_max ≡ limit_bytes

  -- What a round does, from the decision.
  round_decided :
      (s : Snapshot F) (p p' : Policy) (capacity : ℕ) (d : Decision F)
      → evaluate D p cfg (some s) capacity ≡ (Rc.ok, p', d)
      → ((is_hold d.action ≡ false) ⊎ (d.target_frames ≡ capacity))
      → round s (p, capacity) ≡ (p', d.target_frames)
  unfolding round apply
  round_decided s p p' capacity d e (inl asks) = rw (e, asks)
  round_decided s p p' capacity d e (inr same) = elim (Bool-cases (is_hold d.action)) [
    | inl holds ↦ rw (e, holds) (ap (λ n. (p', n)) (sym same))
    | inr asks ↦ rw (e, asks)
  ]

  -- No earlier request can stand in the way of a shrink, or of a growth.
  abbrev pub AllowsShrink : Policy → ℕ → Type 0
  AllowsShrink p capacity = (p.have_last ≡ false) ⊎ (capacity ≤ p.last_target)

  abbrev pub AllowsGrowth : Policy → ℕ → Type 0
  AllowsGrowth p capacity = (p.have_last ≡ false) ⊎ (p.last_target ≤ capacity)

  shrink_decided :
      (p : Policy) (capacity : ℕ) (pressure : F)
      → cfg.min_frames ≤ capacity
      → AllowsShrink p capacity
      → (let (p', d) = decide_shrink D p cfg capacity pressure in
          (d.target_frames ≡ max cfg.min_frames (capacity - cfg.max_step_down))
          × ((is_hold d.action ≡ false) ⊎ (d.target_frames ≡ capacity))
          × AllowsShrink p' d.target_frames)
  unfolding decide_shrink sub_floor
  shrink_decided p capacity pressure h a = ground arith

  grow_decided :
      (p : Policy) (ceiling capacity : ℕ) (pressure : F)
      → ceiling ≤ ulong_max
      → capacity ≤ ceiling
      → AllowsGrowth p capacity
      → (let (p', d) = decide_grow D p cfg ceiling capacity pressure in
          (d.target_frames ≡ min ceiling (capacity + cfg.max_step_up))
          × ((is_hold d.action ≡ false) ⊎ (d.target_frames ≡ capacity))
          × AllowsGrowth p' d.target_frames)
  unfolding decide_grow add_sat
  grow_decided p ceiling capacity pressure c h a = ground arith

  module _ (valid : policy_config_valid D cfg ≡ true) where
    round_high :
        (s : Snapshot F) (p : Policy) (capacity : ℕ)
        → IsHigh s
        → cfg.min_frames ≤ capacity
        → AllowsShrink p capacity
        → (let (p', capacity') = round s (p, capacity) in
            (capacity' ≡ max cfg.min_frames (capacity - cfg.max_step_down))
            × AllowsShrink p' capacity')
    round_high s p capacity is h a =
        let pressure = clamped D s.memory_pressure in
        let (p', d) = decide_shrink D p cfg capacity pressure in
        let (target, asks, allows) = shrink_decided p capacity pressure h a in
        let e : evaluate D p cfg (some s) capacity ≡ (Rc.ok, p', d) =
          evaluate_measured D p cfg s capacity valid is.measured
          ∙ ap (λ (t : Policy × Decision F). (Rc.ok, t.0, t.1))
              (decide_high D p cfg s capacity pressure is.limited is.high) in
        rw (round_decided s p p' capacity d e asks) (target, allows)

    -- If every snapshot is measured, limited and at the shrink threshold, the configuration is
    -- valid, the engine grants every request and has at least `min_frames` frames, and no
    -- remembered request is below that capacity, then after the rounds of these snapshots the
    -- capacity is lower by `max_step_down` for each round, but not lower than `min_frames`.
    pub rounds_shrink :
        (ss : List (Snapshot F)) (p : Policy) (capacity : ℕ)
        → All IsHigh ss
        → cfg.min_frames ≤ capacity
        → AllowsShrink p capacity
        → (rounds ss (p, capacity)).1
          ≡ max cfg.min_frames (capacity - length ss * cfg.max_step_down)
    unfolding rounds
    rounds_shrink [] p capacity is h a = omega arith
    rounds_shrink (s ∷ ss) p capacity is h a =
        let (lower, allows) = round_high s p capacity is.0 h a in
        let rest = rounds_shrink ss _ _ is.1 (omega arith) allows in omega arith

    round_low :
        (limit_bytes : ℕ) (s : Snapshot F) (p : Policy) (capacity : ℕ)
        → IsLow limit_bytes s
        → ceiling_frames D cfg limit_bytes ≤ ulong_max
        → capacity ≤ ceiling_frames D cfg limit_bytes
        → AllowsGrowth p capacity
        → (let (p', capacity') = round s (p, capacity) in
            (capacity' ≡ min (ceiling_frames D cfg limit_bytes) (capacity + cfg.max_step_up))
            × AllowsGrowth p' capacity')
    round_low limit_bytes s p capacity is c h a =
        let pressure = clamped D s.memory_pressure in
        let ceiling = ceiling_frames D cfg limit_bytes in
        let (p', d) = decide_grow D p cfg ceiling capacity pressure in
        let (target, asks, allows) = grow_decided p ceiling capacity pressure c h a in
        let e : evaluate D p cfg (some s) capacity ≡ (Rc.ok, p', d) =
          evaluate_measured D p cfg s capacity valid is.measured
          ∙ ap (λ (t : Policy × Decision F). (Rc.ok, t.0, t.1))
              (decide_low D p cfg s capacity pressure is.limited is.not_high is.low
                ∙ ap (λ n. decide_grow D p cfg (ceiling_frames D cfg n) capacity pressure)
                    is.limit) in
        rw (round_decided s p p' capacity d e asks) (target, allows)

    ceiling_frames-le-ulong_max :
        (limit_bytes : ℕ)
        → IsDouble D
        → cfg.min_frames ≤ ulong_max
        → ceiling_frames D cfg limit_bytes ≤ ulong_max
    unfolding ceiling_frames ceiling_raw
    ceiling_frames-le-ulong_max limit_bytes law h =
        let x =
          D.mul (D.div (D.of_ulong limit_bytes) (D.of_ulong cfg.page_size)) cfg.pool_fraction in
        ground (arith, law.to_ulong-le x)

    rounds_low :
        (limit_bytes : ℕ) (ss : List (Snapshot F)) (p : Policy) (capacity : ℕ)
        → ceiling_frames D cfg limit_bytes ≤ ulong_max
        → All (IsLow limit_bytes) ss
        → capacity ≤ ceiling_frames D cfg limit_bytes
        → AllowsGrowth p capacity
        → (rounds ss (p, capacity)).1
          ≡ min (ceiling_frames D cfg limit_bytes) (capacity + length ss * cfg.max_step_up)
    unfolding rounds
    rounds_low limit_bytes [] p capacity c is h a = omega arith
    rounds_low limit_bytes (s ∷ ss) p capacity c is h a =
        let (higher, allows) = round_low limit_bytes s p capacity is.0 c h a in
        let rest = rounds_low limit_bytes ss _ _ c is.1 (omega arith) allows in omega arith

    -- If every snapshot is measured, has one and the same limit, and is below the shrink threshold
    -- and at the grow threshold at most, the configuration is valid, the engine grants every
    -- request and has no more frames than the ceiling of that limit, and no remembered request is
    -- above that capacity, then after the rounds of these snapshots the capacity is higher by
    -- `max_step_up` for each round, but not higher than the ceiling.
    pub rounds_grow :
        (limit_bytes : ℕ) (ss : List (Snapshot F)) (p : Policy) (capacity : ℕ)
        → IsDouble D
        → cfg.min_frames ≤ ulong_max
        → All (IsLow limit_bytes) ss
        → capacity ≤ ceiling_frames D cfg limit_bytes
        → AllowsGrowth p capacity
        → (rounds ss (p, capacity)).1
          ≡ min (ceiling_frames D cfg limit_bytes) (capacity + length ss * cfg.max_step_up)
    rounds_grow limit_bytes ss p capacity law floor =
        rounds_low limit_bytes ss p capacity (ceiling_frames-le-ulong_max limit_bytes law floor)
