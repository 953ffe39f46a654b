-- ===== src/Router/Hex.antt =====
-- The hexadecimal records of src/manager/router.cpp: `HexDecode` reads what `HexEncode` prints.
use nexus_db.Prelude.{
  ℕ, zero, suc, map, ◌==◌, ==_iff, ◌+◌, ◌-◌, ◌*◌, ◌/◌, ◌%◌, ◌^◌, ◌<◌, ◌≡◌, refl, ◌∙◌, inl, inr,
  Bool, true, not, ◌&&◌, Option, none, some, List, [], ◌∷◌, ltb, leb, if◌then◌else◌, Bool-cases,
  Str, codes, length, get_or, arith, All, subst,
}

-- `HexVal`, where -1 is `none`.
unfoldable pub hex_val : ℕ → Option ℕ
hex_val c =
    if leb b'0' c && leb c b'9'
    then some (c - b'0')
    else if leb b'a' c && leb c b'f'
    then some (c - b'a' + 10)
    else if leb b'A' c && leb c b'F'
    then some (c - b'A' + 10)
    else none

-- A byte of two digits in front of the bytes that follow.
abbrev pub hex_byte : Option ℕ → Option ℕ → Option (List ℕ) → Option (List ℕ)
hex_byte (some hi) (some lo) (some rest) = some ((hi * 16 + lo) ∷ rest)
hex_byte (some hi) (some lo) none = none
hex_byte (some hi) none rest = none
hex_byte none lo rest = none

-- The loop of `HexDecode`. The byte behind the last one of a `std::string` is 0, which is no digit.
unfoldable pub hex_pairs : Str → Option (List ℕ)
hex_pairs [] = some []
hex_pairs (hi ∷ []) = none
hex_pairs (hi ∷ lo ∷ s) = hex_byte (hex_val hi) (hex_val lo) (hex_pairs s)

-- `HexDecode`
unfoldable pub hex_decode : Str → Option (List ℕ)
hex_decode s = if not (length s % 2 == 0) then none else hex_pairs s

abbrev pub hex_digit : ℕ → ℕ
hex_digit n = get_or (codes "0123456789abcdef") n 0

-- `HexEncode`
unfoldable pub hex_encode : List ℕ → Str
hex_encode [] = []
hex_encode (b ∷ bs) = hex_digit (b / 2 ^ 4 % 16) ∷ hex_digit (b % 16) ∷ hex_encode bs

-- The character of a digit by its value.
unfoldable pub digit_char : ℕ → ℕ
digit_char n = if ltb n 10 then b'0' + n else b'a' - 10 + n

-- A hexadecimal digit in lower case.
unfoldable pub lower_hex : ℕ → ℕ
lower_hex c = if leb b'A' c && leb c b'F' then c + 32 else c

all_digits : ℕ → (ℕ → Bool) → Bool
all_digits zero p = true
all_digits (suc n) p = p n && all_digits n p

all_digits_sound : (n : ℕ) (p : ℕ → Bool) (x : ℕ) → all_digits n p ≡ true → x < n → p x ≡ true
unfolding all_digits
all_digits_sound zero p x h lt = absurd (omega arith)
all_digits_sound (suc n) p x h lt = ground (arith, all_digits_sound n p x)

hex_digits : all_digits 16 (λ n. hex_digit n == digit_char n) ≡ true
unfolding all_digits digit_char
hex_digits = refl

hex_digit-digit_char : (n : ℕ) → n < 16 → hex_digit n ≡ digit_char n
hex_digit-digit_char n h = (==_iff _ _).0 (all_digits_sound 16 _ n hex_digits h)

hex_val-digit_char : (n : ℕ) → n < 16 → hex_val (digit_char n) ≡ some n
unfolding hex_val digit_char
hex_val-digit_char n h = ground arith

hex_val-hex_digit : (n : ℕ) → n < 16 → hex_val (hex_digit n) ≡ some n
hex_val-hex_digit n h = rw (hex_digit-digit_char n h) (hex_val-digit_char n h)

hex_val-Digit : (c n : ℕ) → hex_val c ≡ some n → (n < 16) × (digit_char n ≡ lower_hex c)
unfolding hex_val digit_char lower_hex
hex_val-Digit c n h = ground arith

hex_digit-hex_val : (c n : ℕ) → hex_val c ≡ some n → (n < 16) × (hex_digit n ≡ lower_hex c)
hex_digit-hex_val c n h =
    let (small, same) = hex_val-Digit c n h in (small, hex_digit-digit_char n small ∙ same)

hex_pairs-hex_encode : (bs : List ℕ) → All (λ b. b < 256) bs → hex_pairs (hex_encode bs) ≡ some bs
unfolding hex_pairs hex_encode
hex_pairs-hex_encode [] h = refl
hex_pairs-hex_encode (b ∷ bs) h =
    let small = h.0 in
    let high : b / 2 ^ 4 % 16 ≡ b / 16 = omega arith in
    let e : b / 16 * 16 + b % 16 ≡ b = omega arith in
    rw
      (
        hex_val-hex_digit (b / 2 ^ 4 % 16) (omega arith),
        hex_val-hex_digit (b % 16) (omega arith),
        hex_pairs-hex_encode bs h.1,
        high,
        e,
      )
      refl

length-hex_encode : (bs : List ℕ) → length (hex_encode bs) ≡ 2 * length bs
unfolding hex_encode
length-hex_encode [] = omega arith
length-hex_encode (b ∷ bs) = omega (arith, length-hex_encode bs)

-- `HexDecode` reads every printed record back.
pub hex_decode-hex_encode :
    (bs : List ℕ) → All (λ b. b < 256) bs → hex_decode (hex_encode bs) ≡ some bs
unfolding hex_decode
hex_decode-hex_encode bs h =
    let even : (length (hex_encode bs) % 2 == 0) ≡ true = ground (arith, length-hex_encode bs) in
    rw even (hex_pairs-hex_encode bs h)

hex_byte-some :
    (x y : Option ℕ) (o : Option (List ℕ)) {bs : List ℕ}
    → hex_byte x y o ≡ some bs
    → (hi : ℕ) × (lo : ℕ) × (rest : List ℕ) × (x ≡ some hi)
      × (y ≡ some lo)
      × (o ≡ some rest)
      × ((hi * 16 + lo) ∷ rest ≡ bs)
hex_byte-some (some hi) (some lo) (some rest) h = (hi, lo, rest, refl, refl, refl, cc)
hex_byte-some (some hi) (some lo) none h = cc
hex_byte-some (some hi) none o h = cc
hex_byte-some none y o h = cc

Printed : List ℕ → Str → Type 0
Printed bs s = All (λ b. b < 256) bs × (hex_encode bs ≡ map lower_hex s)

hex_pairs-Printed : (s : Str) (bs : List ℕ) → hex_pairs s ≡ some bs → Printed bs s
unfolding hex_pairs hex_encode Printed
hex_pairs-Printed [] bs h = let e : [] ≡ bs = cc in subst (λ l. Printed l []) e (tt, refl)
hex_pairs-Printed (a ∷ []) bs h = cc
hex_pairs-Printed (a ∷ b ∷ s) bs h =
    let (hi, lo, rest, ea, eb, eo, e) = hex_byte-some (hex_val a) (hex_val b) (hex_pairs s) h in
    let (bytes, text) = hex_pairs-Printed s rest eo in
    let (hi_small, hi_char) = hex_digit-hex_val a hi ea in
    let (lo_small, lo_char) = hex_digit-hex_val b lo eb in
    let high : (hi * 16 + lo) / 2 ^ 4 % 16 ≡ hi = omega arith in
    let low : (hi * 16 + lo) % 16 ≡ lo = omega arith in
    subst (λ l. Printed l (a ∷ b ∷ s)) e
      ((omega arith, bytes), rw (high, low, hi_char, lo_char, text) refl)

-- A text that `HexDecode` accepts is of bytes, and `HexEncode` prints these as the text in lower
-- case; every list of bytes is accepted as it is printed.
pub hex_decode-Printed :
    (s : Str) (bs : List ℕ)
    → (hex_decode s ≡ some bs → All (λ b. b < 256) bs × (hex_encode bs ≡ map lower_hex s))
      × (All (λ b. b < 256) bs → hex_decode (hex_encode bs) ≡ some bs)
unfolding hex_decode Printed
hex_decode-Printed s bs = elim (Bool-cases (length s % 2 == 0)) [
  | inr e ↦ (rw e (λ h. cc), hex_decode-hex_encode bs)
  | inl e ↦ (rw e (hex_pairs-Printed s bs), hex_decode-hex_encode bs)
]
