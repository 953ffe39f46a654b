-- ===== src/Bridge/Policy/Retry.antt =====
-- The memory of the last request: no request is repeated, and a failed one may be.
use nexus_db.Prelude.{
  subst, ℕ, ◌≡◌, refl, sym, ap, ◌∙◌, inl, inr, true, false, some, arith, Bool-cases,
}
use nexus_db.Rc.{Rc, is_ok}
use nexus_db.Double.{Double}
use nexus_db.Bridge.Snapshot.{Snapshot}
use nexus_db.Bridge.Policy.{
  PolicyConfig, Policy, Decision, Reason, policy_init, policy_config_valid, decide_shrink,
  decide_grow, decide, is_measured, clamped, evaluate, apply, is_hold, Request, holding,
}
use nexus_db.Bridge.Policy.Branches.{evaluate_measured}

module _ (D : Double) where
  open D use {F}

  decide_twice :
      (p : Policy) (cfg : PolicyConfig F) (s : Snapshot F) (current : ℕ) (pressure : F)
      → (let (p', d) = decide D p cfg s current pressure in
          is_hold d.action ≡ false
          → decide D p' cfg s current pressure ≡ (p', holding D current pressure Reason.duplicate))
  unfolding decide decide_shrink decide_grow
  decide_twice p cfg s current pressure h = ground arith

  decide_forgotten :
      (p : Policy) (cfg : PolicyConfig F) (s : Snapshot F) (current : ℕ) (pressure : F)
      → (let (p', d) = decide D p cfg s current pressure in
          is_hold d.action ≡ false → decide D policy_init cfg s current pressure ≡ (p', d))
  unfolding decide decide_shrink decide_grow policy_init
  decide_forgotten p cfg s current pressure h = ground arith

  -- A decision that asks for a new capacity comes from `decide`.
  evaluate_asks :
      (p : Policy) (cfg : PolicyConfig F) (s : Snapshot F) (current : ℕ)
      → is_hold (evaluate D p cfg (some s) current).2.action ≡ false
      → (policy_config_valid D cfg ≡ true) × (is_measured D s ≡ true)
  unfolding evaluate
  evaluate_asks p cfg s current = elim (Bool-cases (policy_config_valid D cfg)) [
    | inr e ↦ rw e (λ h. cc)
    | inl e ↦ elim (Bool-cases (is_measured D s)) [
      | inr k ↦ rw (e, k) (λ h. cc)
      | inl k ↦ λ _. (e, k)
    ]
  ]

  decide_pressure :
      (p : Policy) (cfg : PolicyConfig F) (s : Snapshot F) (current : ℕ) (pressure : F)
      → (decide D p cfg s current pressure).1.pressure ≡ pressure
  unfolding decide decide_shrink decide_grow
  decide_pressure p cfg s current pressure = ground arith

  -- What a claim on the result of `evaluate` says of the result of `decide`.
  from_decide :
      (P : Rc × Policy × Decision F → Type 0) (p : Policy) (cfg : PolicyConfig F) (s : Snapshot F)
      (current : ℕ)
      → is_hold (evaluate D p cfg (some s) current).2.action ≡ false
      → (let (p', d) = decide D p cfg s current (clamped D s.memory_pressure) in
          (is_hold d.action ≡ false → P (Rc.ok, p', d)))
      → P (evaluate D p cfg (some s) current)
  from_decide P p cfg s current asks claim =
      let (valid, measured) = evaluate_asks p cfg s current asks in
      let first = evaluate_measured D p cfg s current valid measured in
      subst (λ x. is_hold x.2.action ≡ false → P x) (sym first) claim asks

  -- If a decision asks for a new capacity, then the next decision on the same snapshot, at the same
  -- capacity, holds with the reason `duplicate` and changes the policy's memory no further.
  evaluate_twice :
      (p : Policy) (cfg : PolicyConfig F) (s : Snapshot F) (current : ℕ)
      → is_hold (evaluate D p cfg (some s) current).2.action ≡ false
      → (let (_, p', d) = evaluate D p cfg (some s) current in
          evaluate D p' cfg (some s) current
          ≡ (Rc.ok, p', holding D current d.pressure Reason.duplicate))
  evaluate_twice p cfg s current asks =
      let pressure = clamped D s.memory_pressure in
      let (p', d) = decide D p cfg s current pressure in
      let (valid, measured) = evaluate_asks p cfg s current asks in
      from_decide
        (λ x.
          evaluate D x.1 cfg (some s) current
          ≡ (Rc.ok, x.1, holding D current x.2.pressure Reason.duplicate))
        p cfg s current asks
        (λ asks'.
          evaluate_measured D p' cfg s current valid measured
          ∙ ap (λ (t : Policy × Decision F). (Rc.ok, t.0, t.1))
              (decide_twice p cfg s current pressure asks'
                ∙ ap (λ x. (p', holding D current x Reason.duplicate))
                    (sym (decide_pressure p cfg s current pressure))))

  -- If a decision asks for a new capacity, then a policy without memory makes the same decision and
  -- remembers the same request.
  evaluate_forgotten :
      (p : Policy) (cfg : PolicyConfig F) (s : Snapshot F) (current : ℕ)
      → is_hold (evaluate D p cfg (some s) current).2.action ≡ false
      → evaluate D policy_init cfg (some s) current ≡ evaluate D p cfg (some s) current
  evaluate_forgotten p cfg s current asks =
      let pressure = clamped D s.memory_pressure in
      let (valid, measured) = evaluate_asks p cfg s current asks in
      from_decide (λ x. evaluate D policy_init cfg (some s) current ≡ x) p cfg s current asks
        (λ asks'.
          evaluate_measured D policy_init cfg s current valid measured
          ∙ ap (λ (t : Policy × Decision F). (Rc.ok, t.0, t.1))
              (decide_forgotten p cfg s current pressure asks'))

  -- If a decision asks for a new capacity and the engine refuses it, then `nexus_policy_apply`
  -- returns the engine's error with the reason `request_failed`, and the policy that it leaves
  -- makes the same decision again on the same snapshot and capacity.
  pub apply_retry :
      {E : Type 0} (p : Policy) (cfg : PolicyConfig F) (s : Snapshot F) (current : ℕ)
      (ask : Request D E) (engine : E)
      → is_hold (evaluate D p cfg (some s) current).2.action ≡ false
      → (let (_, _, d) = evaluate D p cfg (some s) current in
          is_ok (ask engine d.target_frames).0 ≡ false
          → (let (rc, p', d', engine') = apply D p cfg (some s) current (some ask) engine in
              ((rc, engine') ≡ ask engine d.target_frames)
              × (d' ≡ record d { reason = Reason.request_failed })
              × (evaluate D p' cfg (some s) current ≡ evaluate D p cfg (some s) current)))
  unfolding apply
  apply_retry p cfg s current ask engine asks refused =
      let again = evaluate_forgotten p cfg s current asks in
      let fine = from_decide (λ x. x.0 ≡ Rc.ok) p cfg s current asks (λ _. refl) in
      simp (fine, asks, refused) (refl, refl, again)
