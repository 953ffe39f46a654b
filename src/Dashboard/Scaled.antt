-- ===== src/Dashboard/Scaled.antt =====
-- The unit of `nexus_format_bytes`.
use nexus_db.Prelude.{
  ℕ, zero, suc, ◌+◌, ◌≤◌, ◌≡◌, ◌<◌, refl, ap, ◌∙◌, sym, subst, length, ◌⊎◌, inl, inr, false, arith,
  Bool-cases,
}
use nexus_db.Double.{Double}
use nexus_db.Dashboard.Format.{scale, units}

module _ (D : Double) where
  open D use {F, le, lit, of_ulong, div}

  -- A number divided by 1024 this many times.
  reduce : ℕ → F → F
  reduce zero value = value
  reduce (suc n) value = reduce n (div value (lit 10240 1))

  scale-reduce :
      (left : ℕ) (value : F) (unit : ℕ)
      → (n : ℕ) × (n ≤ left)
        × (scale D left value unit ≡ (reduce n value, unit + n))
        × ((n ≡ left) ⊎ (le (lit 10240 1) (reduce n value) ≡ false))
  unfolding scale reduce
  scale-reduce zero value unit = (0, omega arith, ap (λ u. (value, u)) (omega arith), inl refl)
  scale-reduce (suc left) value unit = elim (Bool-cases (le (lit 10240 1) value)) [
    | inl k ↦
        let smaller = div value (lit 10240 1) in
        let (n, h, e, q) = scale-reduce left smaller (unit + 1) in
        (
          suc n,
          omega arith,
          rw k (e ∙ ap (λ u. (reduce n smaller, u)) (omega arith)),
          elim q [ inl all ↦ inl (omega arith) | inr small ↦ inr small ],
        )
    | inr k ↦ (0, omega arith, rw k (ap (λ u. (value, u)) (omega arith)), inr k)
  ]

  -- The loop of `nexus_format_bytes` divides a number of bytes by 1024 as often as the index of its
  -- unit says, stays within the six units, and stops before the last only below 1024.
  scale_bytes :
      (bytes : ℕ)
      → (let (value, unit) = scale D 5 (of_ulong bytes) 0 in
          (unit < length units)
          × (value ≡ reduce unit (of_ulong bytes))
          × ((unit ≡ 5) ⊎ (le (lit 10240 1) value ≡ false)))
  scale_bytes bytes =
      let (n, h, e, q) = scale-reduce 5 (of_ulong bytes) 0 in
      let done : scale D 5 (of_ulong bytes) 0 ≡ (reduce n (of_ulong bytes), n) =
        e ∙ ap (λ u. (reduce n (of_ulong bytes), u)) (omega arith) in
      subst
        (λ (p : F × ℕ).
          (p.1 < length units)
          × (p.0 ≡ reduce p.1 (of_ulong bytes))
          × ((p.1 ≡ 5) ⊎ (le (lit 10240 1) p.0 ≡ false)))
        (sym done) (omega arith, refl, q)
