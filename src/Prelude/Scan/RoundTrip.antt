-- ===== src/Prelude/Scan/RoundTrip.antt =====
-- What `%lu` prints is read back, and a scan leaves less text.
use Prim.Native.Nat.{ℕ, zero, suc, ◌+◌, ◌*◌, ◌/◌, ◌%◌, ◌^◌, ◌≤◌, ◌<◌}
use mathlib.Core.Path.{◌≡◌, refl, sym, ap, ◌∙◌, subst}
use mathlib.Core.Bool.{Bool, true, false}
use mathlib.Core.List.{[], ◌∷◌, ◌++◌}
use mathlib.Core.Option
use mathlib.Core.Option.{Option, none, some}
use native.Mathlib.Omega.{arith}
use mathlib.Core.Logic.{inl, inr}
use nexus_db.Prelude.Tests.{◌==◌, Bool-cases, ==_iff}
use nexus_db.Prelude.Lists.{length, All}
use nexus_db.Prelude.Bytes.{Str, str_eq}
use nexus_db.Prelude.Numerals.{dec_digits, show_ulong}
use nexus_db.Prelude.Scan.{
  is_space, drop_space, read_digits, read_number, read_sign, as_ulong, strtoul, take_word,
  nonempty_word, scan_word,
}

read_digits-step :
    (v d : ℕ) (s : Str) → d < 10 → read_digits v ((b'0' + d) ∷ s) ≡ read_digits (v * 10 + d) s
read_digits-step v d s h = ground arith

pub read_digits-dec_digits :
    (fuel n : ℕ) (s : Str) → n < 10 ^ fuel → read_digits 0 (dec_digits fuel n s) ≡ read_digits n s
unfolding dec_digits
read_digits-dec_digits zero n s h = ap (λ m. read_digits m s) (omega arith)
read_digits-dec_digits (suc fuel) n s h =
    let e : 10 * (n / 10) + n % 10 ≡ n = omega arith in
    elim (Bool-cases (n / 10 == 0)) [
      | inl z ↦
          let small = (==_iff (n / 10) 0).0 z in
          rw z
            (read_digits-step 0 (n % 10) s (omega arith) ∙ ap (λ m. read_digits m s) (omega arith))
      | inr z ↦ rw z (
          read_digits-dec_digits fuel (n / 10) ((b'0' + n % 10) ∷ s) (omega arith)
          ∙ read_digits-step (n / 10) (n % 10) s (omega arith)
          ∙ ap (λ m. read_digits m s) (omega arith))
    ]

-- The text begins with a digit.
abbrev pub Starts : Str → Type 0
Starts s = (d : ℕ) × (t : Str) × (d < 10) × (s ≡ (b'0' + d) ∷ t)

dec_digits-Starts : (fuel n : ℕ) (s : Str) → Starts s → Starts (dec_digits fuel n s)
unfolding dec_digits
dec_digits-Starts zero n s h = h
dec_digits-Starts (suc fuel) n s h =
    let digit : Starts ((b'0' + n % 10) ∷ s) = (n % 10, s, omega arith, refl) in
    elim (Bool-cases (n / 10 == 0)) [
      | inl z ↦ rw z digit
      | inr z ↦ rw z (dec_digits-Starts fuel (n / 10) ((b'0' + n % 10) ∷ s) digit)
    ]

strtoul-digit :
    (d : ℕ) (t : Str)
    → d < 10
    → strtoul ((b'0' + d) ∷ t) ≡ some (as_ulong false (read_digits 0 ((b'0' + d) ∷ t)))
unfolding strtoul
strtoul-digit d t h =
    let space : drop_space ((b'0' + d) ∷ t) ≡ (b'0' + d) ∷ t = ground arith in
    let sign : read_sign ((b'0' + d) ∷ t) ≡ (false, (b'0' + d) ∷ t) = ground arith in
    let number : read_number ((b'0' + d) ∷ t) ≡ some (read_digits 0 ((b'0' + d) ∷ t)) =
      ground arith in
    ap (λ x. Option.map (as_ulong (read_sign x).0) (read_number (read_sign x).1)) space
    ∙ ap (λ (g : Bool × Str). Option.map (as_ulong g.0) (read_number g.1)) sign
    ∙ ap (Option.map (as_ulong false)) number

strtoul-Starts : (s : Str) → Starts s → strtoul s ≡ some (as_ulong false (read_digits 0 s))
strtoul-Starts s (d, t, h, e) =
    subst (λ s. strtoul s ≡ some (as_ulong false (read_digits 0 s))) (sym e) (strtoul-digit d t h)

pub show_ulong-Starts : (n : ℕ) → Starts (show_ulong n)
unfolding show_ulong dec_digits
show_ulong-Starts n =
    let digit : Starts ((b'0' + n % 10) ∷ []) = (n % 10, [], omega arith, refl) in
    elim (Bool-cases (n / 10 == 0)) [
      | inl z ↦ rw z digit
      | inr z ↦ rw z (dec_digits-Starts 19 (n / 10) ((b'0' + n % 10) ∷ []) digit)
    ]

-- `strtoul` reads the whole of what `%lu` prints.
pub strtoul-show_ulong :
    (n : ℕ)
    → n < 2 ^ 64
    → strtoul (show_ulong n) ≡ some (record { value = n; rest = []; out_of_range = false })
unfolding show_ulong
strtoul-show_ulong n h =
    strtoul-Starts (show_ulong n) (show_ulong-Starts n)
    ∙ ap (λ r. some (as_ulong false r)) (read_digits-dec_digits 20 n [] (omega arith))
    ∙ ground arith

pub drop_space-le : (s : Str) → length (drop_space s) ≤ length s
drop_space-le [] = omega arith
drop_space-le (c ∷ s) = ground (arith, drop_space-le s)

take_word-length :
    (width : ℕ) (s : Str) → length (take_word width s).0 + length (take_word width s).1 ≡ length s
take_word-length zero s = omega arith
take_word-length (suc width) [] = omega arith
take_word-length (suc width) (c ∷ s) = ground (arith, take_word-length width s)

nonempty_word-lt :
    (n : ℕ) (w : Str × Str) (word rest : Str)
    → length w.0 + length w.1 ≤ n
    → nonempty_word w ≡ some (word, rest)
    → length rest < n
nonempty_word-lt n ([], r) word rest h e = absurd cc
nonempty_word-lt n (c ∷ w, r) word rest h e = let same : r ≡ rest = cc in rw⁻¹ same (omega arith)

pub scan_word-lt :
    (width : ℕ) (s word rest : Str) → scan_word width s ≡ some (word, rest) → length rest < length s
unfolding scan_word
scan_word-lt width s word rest h =
    nonempty_word-lt (length s) (take_word width (drop_space s)) word rest
      (omega (arith, take_word-length width (drop_space s), drop_space-le s)) h

abbrev pub IsWord : Str → Type 0
IsWord s = All (λ c. is_space c ≡ false) s

dec_digits-IsWord : (fuel n : ℕ) (s : Str) → IsWord s → IsWord (dec_digits fuel n s)
unfolding dec_digits
dec_digits-IsWord zero n s h = h
dec_digits-IsWord (suc fuel) n s h =
    let digit : IsWord ((b'0' + n % 10) ∷ s) = (ground arith, h) in
    elim (Bool-cases (n / 10 == 0)) [
      | inl z ↦ rw z digit
      | inr z ↦ rw z (dec_digits-IsWord fuel (n / 10) ((b'0' + n % 10) ∷ s) digit)
    ]

length-dec_digits-le : (fuel n : ℕ) (s : Str) → length (dec_digits fuel n s) ≤ fuel + length s
unfolding dec_digits
length-dec_digits-le zero n s = omega arith
length-dec_digits-le (suc fuel) n s =
    ground (arith, length-dec_digits-le fuel (n / 10) ((b'0' + n % 10) ∷ s))

take_word-word :
    (width : ℕ) (word : Str) (c : ℕ) (rest : Str)
    → IsWord word
    → length word ≤ width
    → is_space c ≡ true
    → take_word width (word ++ (c ∷ rest)) ≡ (word, c ∷ rest)
take_word-word zero [] c rest h n k = refl
take_word-word (suc width) [] c rest h n k = rw k refl
take_word-word zero (x ∷ word) c rest h n k = absurd (omega arith)
take_word-word (suc width) (x ∷ word) c rest h n k =
    rw (h.0, take_word-word width word c rest h.1 (omega arith) k) refl

-- A word that fits the buffer is read as it is.
pub scan_word-word :
    (width x : ℕ) (word : Str) (c : ℕ) (rest : Str)
    → IsWord (x ∷ word)
    → suc (length word) ≤ width
    → is_space c ≡ true
    → scan_word width ((x ∷ word) ++ (c ∷ rest)) ≡ some (x ∷ word, c ∷ rest)
unfolding scan_word
scan_word-word width x word c rest h n k =
    let first : drop_space ((x ∷ word) ++ (c ∷ rest)) ≡ (x ∷ word) ++ (c ∷ rest) = rw h.0 refl in
    ap (λ s. nonempty_word (take_word width s)) first
    ∙ ap nonempty_word (take_word-word width (x ∷ word) c rest h n k)

-- A line with a number is read as its digits, if the buffer holds 20 of them.
pub scan_word-show_ulong :
    (width n c : ℕ) (rest : Str)
    → 20 ≤ width
    → is_space c ≡ true
    → scan_word width (show_ulong n ++ (c ∷ rest)) ≡ some (show_ulong n, c ∷ rest)
unfolding show_ulong
scan_word-show_ulong width n c rest h k =
    let (d, t, _, e) = show_ulong-Starts n in
    let word : IsWord (show_ulong n) = dec_digits-IsWord 20 n [] tt in
    let small : length (show_ulong n) ≤ 20 = omega (arith, length-dec_digits-le 20 n []) in
    subst (λ s. IsWord s → length s ≤ 20 → scan_word width (s ++ (c ∷ rest)) ≡ some (s, c ∷ rest))
      (sym e) (λ w l. scan_word-word width (b'0' + d) t c rest w (omega arith) k) word small

pub length-show_ulong-le : (n : ℕ) → length (show_ulong n) ≤ 20
unfolding show_ulong
length-show_ulong-le n = omega (arith, length-dec_digits-le 20 n [])

-- A number is no word that begins with a letter.
pub show_ulong-not-letter : (n c : ℕ) (s : Str) → b'9' < c → str_eq (show_ulong n) (c ∷ s) ≡ false
show_ulong-not-letter n c s h =
    let (d, t, small, e) = show_ulong-Starts n in
    let differs : (b'0' + d) == c ≡ false = ground arith in rw (e, differs) refl
