-- ===== src/Prelude/Scan/Rest.antt =====
-- A number that is read leaves no more text than there was.
use Prim.Native.Nat.{ℕ, suc, ◌+◌, ◌-◌, ◌*◌, ◌≤◌}
use mathlib.Core.Path.{◌≡◌, ap, subst}
use mathlib.Core.Bool.{Bool}
use mathlib.Core.List.{[], ◌∷◌}
use mathlib.Core.Logic.{inl, inr}
use mathlib.Core.Option
use mathlib.Core.Option.{Option, none, some}
use native.Mathlib.Omega.{arith}
use nexus_db.Prelude.Tests.{Bool-cases, Option-cases}
use nexus_db.Prelude.Lists.{length}
use nexus_db.Prelude.Bytes.{Str}
use nexus_db.Prelude.Scan.{
  is_digit, drop_space, read_digits, read_number, read_sign, Scanned, as_ulong, strtoul,
}
use nexus_db.Prelude.Scan.RoundTrip.{drop_space-le}

read_digits-le : (v : ℕ) (s : Str) → length (read_digits v s).1 ≤ length s
read_digits-le v [] = omega arith
read_digits-le v (c ∷ s) = ground (arith, read_digits-le (v * 10 + (c - b'0')) s)

read_sign-le : (s : Str) → length (read_sign s).1 ≤ length s
read_sign-le [] = omega arith
read_sign-le (c ∷ s) = ground arith

read_number-le : (s : Str) (n : ℕ × Str) → read_number s ≡ some n → length n.1 ≤ length s
read_number-le [] n h = absurd cc
read_number-le (c ∷ s) n h = elim (Bool-cases (is_digit c)) [
  | inl k ↦
      let same : read_digits 0 (c ∷ s) ≡ n = ground arith in
      subst (λ (m : ℕ × Str). length m.1 ≤ suc (length s)) same (read_digits-le 0 (c ∷ s))
  | inr k ↦ absurd (ground arith)
]

as_ulong-rest : (negative : Bool) (n : ℕ × Str) → (as_ulong negative n).rest ≡ n.1
as_ulong-rest negative (v, rest) = ground arith

-- A number that was read leaves no more text than there was.
pub strtoul-le : (s : Str) (val : Scanned ℕ) → strtoul s ≡ some val → length val.rest ≤ length s
unfolding strtoul
strtoul-le s val h =
    let signed = read_sign (drop_space s) in
    elim (Option-cases (read_number signed.1)) [
      | inl e ↦ let nothing : strtoul s ≡ none = ap (Option.map (as_ulong signed.0)) e in absurd cc
      | inr (n, e) ↦
          let found : strtoul s ≡ some (as_ulong signed.0 n) =
            ap (Option.map (as_ulong signed.0)) e in
          let same : as_ulong signed.0 n ≡ val = cc in
          let rest = as_ulong-rest signed.0 n in
          subst (λ v. length v.rest ≤ length s) same
            (rw rest (
              omega
                (arith, read_number-le signed.1 n e, read_sign-le (drop_space s), drop_space-le s)))
    ]
