-- ===== src/Prelude/Scan/Long.antt =====
-- What `%ld` prints is read back by `strtol`.
use Prim.Native.Nat.{ℕ, suc, ◌+◌, ◌^◌, ◌<◌}
use mathlib.Core.Path.{◌≡◌, refl, sym, ap, ◌∙◌, subst}
use mathlib.Core.Bool.{true, false}
use mathlib.Core.List.{[], ◌∷◌}
use mathlib.Core.Option.{some}
use native.Mathlib.Omega.{arith}
use nexus_db.Prelude.Tests.{leb}
use nexus_db.Prelude.Bytes.{Str}
use nexus_db.Prelude.Int.{ℤ, pos, negsuc}
use nexus_db.Prelude.Numerals.{show_ulong, show_long}
use nexus_db.Prelude.Scan.{drop_space, read_digits, read_number, read_sign, as_long, strtol}
use nexus_db.Prelude.Scan.RoundTrip.{Starts, show_ulong-Starts, read_digits-dec_digits}

-- The range of `long`.
abbrev pub IsLong : ℤ → Type 0
IsLong (pos n) = n < 2 ^ 63
IsLong (negsuc n) = n < 2 ^ 63

read_number-Starts : (s : Str) → Starts s → read_number s ≡ some (read_digits 0 s)
read_number-Starts s (d, t, h, e) =
    let number : read_number ((b'0' + d) ∷ t) ≡ some (read_digits 0 ((b'0' + d) ∷ t)) =
      ground arith in
    subst (λ s. read_number s ≡ some (read_digits 0 s)) (sym e) number

sign-Starts : (s : Str) → Starts s → read_sign (drop_space s) ≡ (false, s)
sign-Starts s (d, t, h, e) =
    let space : drop_space ((b'0' + d) ∷ t) ≡ (b'0' + d) ∷ t = ground arith in
    let sign : read_sign ((b'0' + d) ∷ t) ≡ (false, (b'0' + d) ∷ t) = ground arith in
    subst (λ s. read_sign (drop_space s) ≡ (false, s)) (sym e) (ap read_sign space ∙ sign)

read_digits-show_ulong : (n : ℕ) → n < 10 ^ 20 → read_digits 0 (show_ulong n) ≡ (n, [])
unfolding show_ulong
read_digits-show_ulong n h = read_digits-dec_digits 20 n [] h

read_number-show_ulong : (n : ℕ) → n < 10 ^ 20 → read_number (show_ulong n) ≡ some (n, [])
read_number-show_ulong n h =
    read_number-Starts (show_ulong n) (show_ulong-Starts n)
    ∙ ap (λ r. some r) (read_digits-show_ulong n h)

as_long_negative :
    (n : ℕ)
    → n < 2 ^ 63
    → as_long true (n + 1, []) ≡ record { value = negsuc n; rest = []; out_of_range = false }
as_long_negative n h =
    let e : n + 1 ≡ suc n = omega arith in
    let fits : leb (2 ^ 63) n ≡ false = ground arith in rw e (rw fits refl)

pub strtol-show_long :
    (z : ℤ)
    → IsLong z
    → strtol (show_long z) ≡ some (record { value = z; rest = []; out_of_range = false })
unfolding strtol show_long
strtol-show_long (pos n) h =
    rw (sign-Starts (show_ulong n) (show_ulong-Starts n), read_number-show_ulong n (omega arith))
      (ground arith)
strtol-show_long (negsuc n) h =
    rw (read_number-show_ulong (n + 1) (omega arith)) (ap (λ r. some r) (as_long_negative n h))
