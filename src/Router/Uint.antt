-- ===== src/Router/Uint.antt =====
-- The decimal numbers of src/manager/router.cpp: the guards of `ParseUint` against overflow.
use nexus_db.Prelude.{
  ℕ, zero, suc, ◌+◌, ◌-◌, ◌*◌, ◌/◌, ◌%◌, ◌^◌, ◌≤◌, ◌<◌, ◌≡◌, refl, sym, ap, ◌∙◌, inl, inr, Bool,
  true, false, ◌&&◌, ◌||◌, Option, none, some, [], ◌∷◌, ltb, leb, ltb→lt, ==_iff, ◌==◌,
  if◌then◌else◌, Bool-cases, Str, arith,
}
use nexus_db.Prelude.Numerals.{dec_digits, show_ulong}

-- The loop of `ParseUint` with 64-bit arithmetic.
unfoldable pub uint_loop : ℕ → Str → ℕ → Option ℕ
uint_loop max [] value = some value
uint_loop max (c ∷ s) value =
    let digit = c - b'0' in
    let tens = value * 10 % 2 ^ 64 in
    let rest = uint_loop max s ((tens + digit) % 2 ^ 64) in
    if ltb c b'0' || ltb b'9' c
    then none
    else if ltb (max / 10) value
    then none
    else if ltb ((max + 2 ^ 64 - tens) % 2 ^ 64) digit
    then none
    else rest

-- `ParseUint`
unfoldable pub parse_uint : Str → ℕ → Option ℕ
parse_uint [] max = none
parse_uint (c ∷ s) max = uint_loop max (c ∷ s) 0

abbrev pub is_digit : ℕ → Bool
is_digit c = leb b'0' c && leb c b'9'

-- The number that a text of digits stands for, of any size, behind digits of the value `v`.
unfoldable pub decimal : ℕ → Str → Option ℕ
decimal v [] = some v
decimal v (c ∷ s) = let rest = decimal (v * 10 + (c - b'0')) s in if is_digit c then rest else none

-- A number if it is at most `max`.
unfoldable pub at_most : ℕ → Option ℕ → Option ℕ
at_most max none = none
at_most max (some n) = if leb n max then some n else none

-- Digits only raise the value.
at_most-above : (max v : ℕ) (s : Str) → max < v → at_most max (decimal v s) ≡ none
unfolding at_most decimal
at_most-above max v [] h = ground arith
at_most-above max v (c ∷ s) h = ground (arith, at_most-above max (v * 10 + (c - b'0')) s)

at_most-le : (max n : ℕ) (o : Option ℕ) → at_most max o ≡ some n → n ≤ max
unfolding at_most
at_most-le max n none h = absurd (cc)
at_most-le max n (some k) h = ground arith

decimal-step : (v d : ℕ) (s : Str) → d < 10 → decimal v ((b'0' + d) ∷ s) ≡ decimal (v * 10 + d) s
unfolding decimal
decimal-step v d s h =
    let digit : is_digit (b'0' + d) ≡ true = ground arith in
    let value : b'0' + d - b'0' ≡ d = omega arith in rw (digit, value) refl

uint_loop-decimal :
    (max : ℕ) (s : Str) (v : ℕ)
    → max < 2 ^ 64
    → v ≤ max
    → uint_loop max s v ≡ at_most max (decimal v s)
unfolding uint_loop decimal
uint_loop-decimal max [] v m h = unfold at_most in ground arith
uint_loop-decimal max (c ∷ s) v m h = elim (Bool-cases (is_digit c)) [
  | inr e ↦
      let bad : (ltb c b'0' || ltb b'9' c) ≡ true = ground arith in
      rw (bad, e) (unfold at_most in refl)
  | inl e ↦
      let good : (ltb c b'0' || ltb b'9' c) ≡ false = ground arith in
      elim (Bool-cases (ltb (max / 10) v)) [
        | inl e1 ↦
            rw (good, e, e1)
              (sym
                (at_most-above max (v * 10 + (c - b'0')) s (omega (arith, ltb→lt (max / 10) v e1))))
        | inr e1 ↦
            let few : v ≤ max / 10 = ground arith in
            let tens : v * 10 % 2 ^ 64 ≡ v * 10 = omega arith in
            let room : (max + 2 ^ 64 - v * 10) % 2 ^ 64 ≡ max - v * 10 = omega arith in
            elim (Bool-cases (ltb (max - v * 10) (c - b'0'))) [
              | inl e2 ↦
                  let over = ltb→lt (max - v * 10) (c - b'0') e2 in
                  rw (good, e, e1, tens, room, e2)
                    (sym (at_most-above max (v * 10 + (c - b'0')) s (omega arith)))
              | inr e2 ↦
                  let fits : c - b'0' ≤ max - v * 10 = ground arith in
                  let sum : (v * 10 + (c - b'0')) % 2 ^ 64 ≡ v * 10 + (c - b'0') = omega arith in
                  rw (good, e, e1, tens, room, e2, sum)
                    (uint_loop-decimal max s (v * 10 + (c - b'0')) m (omega arith))
            ]
      ]
]

-- The number of a text that is not empty.
unfoldable pub number : Str → Option ℕ
number [] = none
number (c ∷ s) = decimal 0 (c ∷ s)

-- `ParseUint` with a limit below 2^64 accepts exactly the texts of digits, not empty, whose number
-- is at most the limit, and gives that number: no product or sum of it wraps around.
pub parse_uint-number :
    (s : Str) (max : ℕ) → max < 2 ^ 64 → parse_uint s max ≡ at_most max (number s)
unfolding parse_uint number
parse_uint-number [] max m = unfold at_most in refl
parse_uint-number (c ∷ s) max m = uint_loop-decimal max (c ∷ s) 0 m (omega arith)

-- A number that is accepted keeps to the limit.
pub parse_uint-le : (s : Str) (max n : ℕ) → max < 2 ^ 64 → parse_uint s max ≡ some n → n ≤ max
parse_uint-le s max n m h = at_most-le max n (number s) (sym (parse_uint-number s max m) ∙ h)

decimal-dec_digits :
    (fuel n : ℕ) (s : Str) → n < 10 ^ fuel → decimal 0 (dec_digits fuel n s) ≡ decimal n s
unfolding dec_digits
decimal-dec_digits zero n s h = ap (λ m. decimal m s) (omega arith)
decimal-dec_digits (suc fuel) n s h =
    let e : n / 10 * 10 + n % 10 ≡ n = omega arith in
    elim (Bool-cases (n / 10 == 0)) [
      | inl z ↦
          let small = (==_iff (n / 10) 0).0 z in
          rw z (decimal-step 0 (n % 10) s (omega arith) ∙ ap (λ m. decimal m s) (omega arith))
      | inr z ↦ rw z (
          decimal-dec_digits fuel (n / 10) ((b'0' + n % 10) ∷ s) (omega arith)
          ∙ decimal-step (n / 10) (n % 10) s (omega arith)
          ∙ ap (λ m. decimal m s) e)
    ]

number-dec_digits :
    (fuel n c : ℕ) (s : Str)
    → number (dec_digits fuel n (c ∷ s)) ≡ decimal 0 (dec_digits fuel n (c ∷ s))
unfolding number dec_digits
number-dec_digits zero n c s = refl
number-dec_digits (suc fuel) n c s = elim (Bool-cases (n / 10 == 0)) [
  | inl z ↦ rw z refl
  | inr z ↦ rw z (number-dec_digits fuel (n / 10) (b'0' + n % 10) (c ∷ s))
]

number-show_ulong : (n : ℕ) → n < 10 ^ 20 → number (show_ulong n) ≡ some n
unfolding show_ulong dec_digits number
number-show_ulong n h =
    let start : number (dec_digits 20 n []) ≡ decimal 0 (dec_digits 20 n []) =
      elim (Bool-cases (n / 10 == 0)) [
        | inl z ↦ rw z refl
        | inr z ↦ rw z (number-dec_digits 19 (n / 10) (b'0' + n % 10) [])
      ] in
    start ∙ decimal-dec_digits 20 n [] h ∙ unfold decimal in refl

-- A number that is printed is read back where the limit admits it.
pub parse_uint-show_ulong :
    (n max : ℕ) → n ≤ max → max < 2 ^ 64 → parse_uint (show_ulong n) max ≡ some n
unfolding at_most
parse_uint-show_ulong n max h m =
    parse_uint-number (show_ulong n) max m
    ∙ ap (at_most max) (number-show_ulong n (omega arith))
    ∙ ground arith
