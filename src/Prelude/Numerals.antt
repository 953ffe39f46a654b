-- ===== src/Prelude/Numerals.antt =====
-- Decimal numbers: what `printf` prints for `%lu`, `%06lu` and `%ld`, and what `strtoul` reads.
use Prim.Native.Nat.{ℕ, zero, suc, ◌+◌, ◌-◌, ◌/◌, ◌%◌}
use mathlib.Core.List.{[], ◌∷◌, ◌++◌}
use nexus_db.Prelude.Tests.{◌==◌, if◌then◌else◌}
use nexus_db.Prelude.Lists.{length, replicate}
use nexus_db.Prelude.Bytes.{Str}
use nexus_db.Prelude.Int.{ℤ, pos, negsuc}

-- The digits of a number in front of a text. Each round prints one digit.
unfoldable pub dec_digits : ℕ → ℕ → Str → Str
dec_digits zero n acc = acc
dec_digits (suc fuel) n acc =
    let rest = dec_digits fuel (n / 10) ((b'0' + n % 10) ∷ acc) in
    if n / 10 == 0 then (b'0' + n % 10) ∷ acc else rest

-- `%lu`. An `unsigned long` has 20 digits at most.
unfoldable pub show_ulong : ℕ → Str
unfolding dec_digits
show_ulong n = dec_digits 20 n []

-- `%06lu`
unfoldable pub show_ulong6 : ℕ → Str
unfolding show_ulong
show_ulong6 n = replicate (6 - length (show_ulong n)) b'0' ++ show_ulong n

-- `%ld`
unfoldable pub show_long : ℤ → Str
unfolding show_ulong
show_long (pos n) = show_ulong n
show_long (negsuc n) = b'-' ∷ show_ulong (n + 1)
