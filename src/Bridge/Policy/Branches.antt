-- ===== src/Bridge/Policy/Branches.antt =====
-- Which branch `nexus_policy_evaluate` takes.
use nexus_db.Prelude.{ℕ, ◌≡◌, true, false, some}
use nexus_db.Rc.{Rc}
use nexus_db.Double.{Double}
use nexus_db.Bridge.Snapshot.{Snapshot}
use nexus_db.Bridge.Policy.{
  PolicyConfig, Policy, Reason, policy_config_valid, ceiling_frames, holding, decide_shrink,
  decide_grow, decide, is_measured, clamped, evaluate,
}

module _ (D : Double) (p : Policy) (cfg : PolicyConfig D.F) (s : Snapshot D.F) (current : ℕ) where
  pub decide_unlimited :
      (pressure : D.F)
      → s.has_limit ≡ false
      → decide D p cfg s current pressure ≡ (p, holding D current pressure Reason.unlimited)
  unfolding decide
  decide_unlimited pressure e = rw e

  pub decide_high :
      (pressure : D.F)
      → s.has_limit ≡ true
      → D.le cfg.shrink_threshold pressure ≡ true
      → decide D p cfg s current pressure ≡ decide_shrink D p cfg current pressure
  unfolding decide
  decide_high pressure e k = rw (e, k)

  pub decide_low :
      (pressure : D.F)
      → s.has_limit ≡ true
      → D.le cfg.shrink_threshold pressure ≡ false
      → D.le pressure cfg.grow_threshold ≡ true
      → decide D p cfg s current pressure
        ≡ decide_grow D p cfg (ceiling_frames D cfg s.memory_max) current pressure
  unfolding decide
  decide_low pressure e k n = rw (e, k, n)

  pub decide_between :
      (pressure : D.F)
      → s.has_limit ≡ true
      → D.le cfg.shrink_threshold pressure ≡ false
      → D.le pressure cfg.grow_threshold ≡ false
      → decide D p cfg s current pressure ≡ (p, holding D current pressure Reason.within_band)
  unfolding decide
  decide_between pressure e k n = rw (e, k, n)

  pub evaluate_invalid :
      policy_config_valid D cfg ≡ false
      → evaluate D p cfg (some s) current
        ≡ (Rc.invalid, p, holding D current (D.lit 0 1) Reason.invalid_config)
  unfolding evaluate
  evaluate_invalid e = rw e

  pub evaluate_unmeasured :
      policy_config_valid D cfg ≡ true
      → is_measured D s ≡ false
      → evaluate D p cfg (some s) current
        ≡ (Rc.ok, p, holding D current (D.lit 0 1) Reason.no_metrics)
  unfolding evaluate
  evaluate_unmeasured e k = rw (e, k)

  pub evaluate_measured :
      policy_config_valid D cfg ≡ true
      → is_measured D s ≡ true
      → (let (p', d) = decide D p cfg s current (clamped D s.memory_pressure) in
          evaluate D p cfg (some s) current ≡ (Rc.ok, p', d))
  unfolding evaluate
  evaluate_measured e k = rw (e, k)
