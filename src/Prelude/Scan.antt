-- ===== src/Prelude/Scan.antt =====
-- Reading text as <stdio.h> and <stdlib.h> do: `fscanf` with `%lu` and `%Ns`, `strtoul`, `strtol`.
-- `unsigned long` and `long` have 64 bits.
pub mod RoundTrip
pub mod Long
pub mod Rest
use Prim.Native.Nat.{ℕ, zero, suc, ◌+◌, ◌-◌, ◌*◌, ◌%◌, ◌^◌}
use mathlib.Core.Bool.{Bool, true, false, ◌&&◌, ◌||◌}
use mathlib.Core.List.{List, [], ◌∷◌}
use mathlib.Core.Option
use mathlib.Core.Option.{Option, none, some}
use nexus_db.Prelude.Tests.{ltb, leb, ◌==◌, if◌then◌else◌}
use nexus_db.Prelude.Bytes.{Str}
use nexus_db.Prelude.Int.{ℤ, pos, negsuc}

-- `isspace`, in the C locale.
abbrev pub is_space : ℕ → Bool
is_space c = c == 32 || leb 9 c && leb c 13

abbrev pub is_digit : ℕ → Bool
is_digit c = leb b'0' c && leb c b'9'

abbrev pub drop_space : Str → Str
drop_space [] = []
drop_space (c ∷ s) = if is_space c then drop_space s else c ∷ s

-- The value of the leading digits, after a value read so far, and what follows them.
abbrev pub read_digits : ℕ → Str → ℕ × Str
read_digits v [] = (v, [])
read_digits v (c ∷ s) =
    let rest = read_digits (v * 10 + (c - b'0')) s in if is_digit c then rest else (v, c ∷ s)

-- No digits leave `end` at `buf`, or make `fscanf` give 0.
abbrev pub read_number : Str → Option (ℕ × Str)
read_number [] = none
read_number (c ∷ s) = if is_digit c then some (read_digits 0 (c ∷ s)) else none

-- Whether a minus sign comes first, and what follows the sign.
abbrev pub read_sign : Str → Bool × Str
read_sign [] = (false, [])
read_sign (c ∷ s) =
    if c == b'-' then (true, s) else if c == b'+' then (false, s) else (false, c ∷ s)

-- What a conversion gives: the value, the text at `end`, and whether `errno` is ERANGE.
pub record Scanned (A : Type 0) : Type 0 where
  pub value : A
  pub rest : Str
  pub out_of_range : Bool

abbrev pub as_ulong : Bool → ℕ × Str → Scanned ℕ
as_ulong negative (v, rest) =
    if leb (2 ^ 64) v
    then record { value = 2 ^ 64 - 1; rest = rest; out_of_range = true }
    else if negative
    then record { value = (2 ^ 64 - v) % 2 ^ 64; rest = rest; out_of_range = false }
    else record { value = v; rest = rest; out_of_range = false }

-- `strtoul(s, &end, 10)`, `none` where `end == s`.
unfoldable pub strtoul : Str → Option (Scanned ℕ)
strtoul s =
    let signed = read_sign (drop_space s) in Option.map (as_ulong signed.0) (read_number signed.1)

abbrev pub as_long : Bool → ℕ × Str → Scanned ℤ
as_long true (zero, rest) = record { value = pos 0; rest = rest; out_of_range = false }
as_long true (suc v, rest) =
    if leb (2 ^ 63) v
    then record { value = negsuc (2 ^ 63 - 1); rest = rest; out_of_range = true }
    else record { value = negsuc v; rest = rest; out_of_range = false }
as_long false (v, rest) =
    if leb (2 ^ 63) v
    then record { value = pos (2 ^ 63 - 1); rest = rest; out_of_range = true }
    else record { value = pos v; rest = rest; out_of_range = false }

-- `strtol(s, &end, 10)`, `none` where `end == s`.
unfoldable pub strtol : Str → Option (Scanned ℤ)
strtol s =
    let signed = read_sign (drop_space s) in Option.map (as_long signed.0) (read_number signed.1)

-- The next characters that are no white space, `width` at most, and what follows them.
abbrev pub take_word : ℕ → Str → Str × Str
take_word zero s = ([], s)
take_word (suc width) [] = ([], [])
take_word (suc width) (c ∷ s) =
    let (word, rest) = take_word width s in if is_space c then ([], c ∷ s) else (c ∷ word, rest)

-- No word is a failed conversion.
abbrev pub nonempty_word : Str × Str → Option (Str × Str)
nonempty_word ([], rest) = none
nonempty_word (c ∷ word, rest) = some (c ∷ word, rest)

-- `fscanf(f, "%<width>s", buf)`: the word and the text that is left, `none` at the end of the file.
unfoldable pub scan_word : ℕ → Str → Option (Str × Str)
scan_word width s = nonempty_word (take_word width (drop_space s))
