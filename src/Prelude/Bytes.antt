-- ===== src/Prelude/Bytes.antt =====
-- C strings as their bytes before the NUL, and the parts of <string.h>, <ctype.h> and snprintf's
-- `%s` that the sources use.
use Prim.Native.Nat.{ℕ, ◌-◌, ◌<◌}
use Prim.Native.Char.{code}
use Prim.Native.String.{String}
use mathlib.Core.Path.{◌≡◌, refl}
use mathlib.Core.Logic.{◌↔◌}
use mathlib.Core.Bool.{Bool, true, false, ◌&&◌, ◌||◌}
use mathlib.Core.List.{List, [], ◌∷◌}
use native.Mathlib.Omega.{arith}
use nexus_db.Prelude.Tests.{leb, ◌==◌}
use nexus_db.Prelude.Lists.{length, take, take_self}

abbrev pub Str : Type 0
Str = List ℕ

-- A string literal of the source.
abbrev pub codes : String → Str
codes String.[] = []
codes (String.◌∷◌ c s) = code c ∷ codes s

-- `strcmp(s, t) == 0`
abbrev pub str_eq : Str → Str → Bool
str_eq [] [] = true
str_eq [] (y ∷ t) = false
str_eq (x ∷ s) [] = false
str_eq (x ∷ s) (y ∷ t) = x == y && str_eq s t

-- `isalnum`, in the C locale.
abbrev pub is_alnum : ℕ → Bool
is_alnum c = leb b'0' c && leb c b'9' || leb b'A' c && leb c b'Z' || leb b'a' c && leb c b'z'

-- `snprintf(buf, cap, "%s", s)`: what the array holds afterwards.
abbrev pub copy_into : ℕ → Str → Str
copy_into cap s = take (cap - 1) s

pub str_eq_iff : (s t : Str) → (str_eq s t ≡ true) ↔ (s ≡ t)
str_eq_iff [] [] = (λ _. refl, λ _. refl)
str_eq_iff [] (y ∷ t) = (λ h. cc, λ h. cc)
str_eq_iff (x ∷ s) [] = (λ h. cc, λ h. cc)
str_eq_iff (x ∷ s) (y ∷ t) =
    (λ h. ground (arith, str_eq_iff s t), λ h. ground (arith, str_eq_iff s t))

pub copy_into_self : (cap : ℕ) (s : Str) → length s < cap → copy_into cap s ≡ s
copy_into_self cap s h = take_self (cap - 1) s (omega arith)
