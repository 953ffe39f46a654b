-- ===== src/Double.antt =====
-- The type `double`, which the language leaves to the hardware: its tests and operations are
-- parameters of what uses them. `le` is not defined by `lt`, since NaN satisfies neither.
use nexus_db.Prelude.{ℕ, ◌≤◌, Bool, Str}

pub record Double : Type 1 where
  pub F : Type 0
  -- `a < b` and `a <= b`
  pub lt : F → F → Bool
  pub le : F → F → Bool
  -- The decimal literal with these digits and this many of them behind the point.
  pub lit : ℕ → ℕ → F
  -- `(double)n` and `(unsigned long)x`
  pub of_ulong : ℕ → F
  pub to_ulong : F → ℕ
  pub add : F → F → F
  pub mul : F → F → F
  pub div : F → F → F
  -- `%.nf`
  pub show : ℕ → F → Str

abbrev pub ulong_max : ℕ
ulong_max = 0xffff_ffff_ffff_ffff

-- What the C standard says of the conversion: its result is an `unsigned long`.
pub record IsDouble (D : Double) : Type 0 where
  pub to_ulong-le : (x : D.F) → D.to_ulong x ≤ ulong_max
