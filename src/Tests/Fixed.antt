-- ===== src/Tests/Fixed.antt =====
-- Decimal fixed-point numbers in steps of 1/10000, in the place of `double`.
use nexus_db.Prelude.{ℕ, ◌+◌, ◌*◌, ◌/◌, ◌^◌, arith, ltb, leb, if◌then◌else◌}
use nexus_db.Prelude.Numerals.{show_ulong}
use nexus_db.Double.{Double, IsDouble, ulong_max}

abbrev to_ulong_fixed : ℕ → ℕ
to_ulong_fixed x = if ltb ulong_max (x / 10000) then ulong_max else x / 10000

abbrev pub fixed : Double
fixed = record {
  F = ℕ;
  lt = ltb;
  le = leb;
  lit = λ digits scale. digits * 10000 / 10 ^ scale;
  of_ulong = λ n. n * 10000;
  to_ulong = to_ulong_fixed;
  add = λ a b. a + b;
  mul = λ a b. a * b / 10000;
  div = λ a b. a * 10000 / b;
  show = λ _ a. show_ulong a;
}

pub fixed-IsDouble : IsDouble fixed
fixed-IsDouble = record { to_ulong-le = λ x. ground arith }
