-- ===== src/Prelude/Search.antt =====
-- The loop that looks for the first element that passes a test, and writes into the array it
-- searches.
use Prim.Native.Nat.{ℕ, zero, suc, ◌≤◌, ◌<◌}
use mathlib.Core.Path.{◌≡◌, refl, ap}
use mathlib.Core.Logic.{◌≢◌, inl, inr}
use mathlib.Core.Bool.{Bool, true, false}
use mathlib.Core.List.{List, [], ◌∷◌}
use mathlib.Core.Option.{Option, none, some}
use native.Mathlib.Omega.{arith}
use nexus_db.Prelude.Tests.{if◌then◌else◌, Bool-cases}
use nexus_db.Prelude.Lists.{length, get_or, set, replicate, next_index, find_index}

pub next_index-some : (o : Option ℕ) (i : ℕ) → next_index o ≡ some (suc i) → o ≡ some i
next_index-some none i h = cc
next_index-some (some j) i h = ground arith

pub next_index-zero : (o : Option ℕ) → next_index o ≢ some 0
next_index-zero none h = cc
next_index-zero (some j) h = ground arith

pub next_index-none : (o : Option ℕ) → next_index o ≡ none → o ≡ none
next_index-none none h = refl
next_index-none (some j) h = cc

module _ {ℓ} {A : Type ℓ} where
  pub get_or-set_self :
      (xs : List A) (i : ℕ) (v d : A) → i < length xs → get_or (set xs i v) i d ≡ v
  get_or-set_self [] i v d h = absurd (omega arith)
  get_or-set_self (x ∷ xs) zero v d h = refl
  get_or-set_self (x ∷ xs) (suc i) v d h = get_or-set_self xs i v d (omega arith)

  pub get_or-set_ne :
      (xs : List A) (i j : ℕ) (v d : A) → i ≢ j → get_or (set xs i v) j d ≡ get_or xs j d
  get_or-set_ne [] i j v d h = refl
  get_or-set_ne (x ∷ xs) zero zero v d h = absurd (h refl)
  get_or-set_ne (x ∷ xs) zero (suc j) v d h = refl
  get_or-set_ne (x ∷ xs) (suc i) zero v d h = refl
  get_or-set_ne (x ∷ xs) (suc i) (suc j) v d h = get_or-set_ne xs i j v d (λ e. h (ap suc e))

module _ {ℓ} {A : Type ℓ} (p : A → Bool) where
  -- What is found lies in the array and passes the test.
  pub find_index-passes :
      (xs : List A) (i : ℕ) (d : A)
      → find_index p xs ≡ some i
      → (i < length xs) × (p (get_or xs i d) ≡ true)
  find_index-passes [] i d h = cc
  find_index-passes (x ∷ xs) zero d h = elim (Bool-cases (p x)) [
    | inl e ↦ (omega arith, e)
    | inr e ↦ absurd (next_index-zero _ (rw e at h))
  ]
  find_index-passes (x ∷ xs) (suc i) d h = elim (Bool-cases (p x)) [
    | inl e ↦ absurd (ground arith)
    | inr e ↦
        let rest = find_index-passes xs i d (next_index-some _ i (rw e at h)) in
        (omega arith, rest.1)
  ]

  pub find_index-set_fails :
      (xs : List A) (i : ℕ) (v d : A)
      → p (get_or xs i d) ≡ false
      → p v ≡ false
      → find_index p (set xs i v) ≡ find_index p xs
  find_index-set_fails [] i v d h k = refl
  find_index-set_fails (x ∷ xs) zero v d h k = rw (h, k)
  find_index-set_fails (x ∷ xs) (suc i) v d h k = rw (find_index-set_fails xs i v d h k)

  pub find_index-set_found :
      (xs : List A) (i : ℕ) (v : A)
      → find_index p xs ≡ some i
      → p v ≡ true
      → find_index p (set xs i v) ≡ some i
  find_index-set_found [] i v h k = cc
  find_index-set_found (x ∷ xs) zero v h k = rw k
  find_index-set_found (x ∷ xs) (suc i) v h k = elim (Bool-cases (p x)) [
    | inl e ↦ absurd (ground arith)
    | inr e ↦ rw e (rw (find_index-set_found xs i v (next_index-some _ i (rw e at h)) k))
  ]

  pub find_index-set_new :
      (xs : List A) (i : ℕ) (v : A)
      → find_index p xs ≡ none
      → i < length xs
      → p v ≡ true
      → find_index p (set xs i v) ≡ some i
  find_index-set_new [] i v h lt k = absurd (omega arith)
  find_index-set_new (x ∷ xs) zero v h lt k = rw k
  find_index-set_new (x ∷ xs) (suc i) v h lt k = elim (Bool-cases (p x)) [
    | inl e ↦ cc (rw e at h)
    | inr e ↦ rw e (rw (find_index-set_new xs i v (next_index-none _ (rw e at h)) (omega arith) k))
  ]

module _ {ℓ} {A : Type ℓ} (p : A → Bool) where
  -- How many elements pass the test.
  abbrev pub count_if : List A → ℕ
  count_if [] = 0
  count_if (x ∷ xs) = if p x then suc (count_if xs) else count_if xs

  pub count_if-set_same :
      (xs : List A) (i : ℕ) (v d : A)
      → p (get_or xs i d) ≡ p v
      → count_if (set xs i v) ≡ count_if xs
  count_if-set_same [] i v d h = refl
  count_if-set_same (x ∷ xs) zero v d h = rw h
  count_if-set_same (x ∷ xs) (suc i) v d h = rw (count_if-set_same xs i v d h)

  pub count_if-set_le : (xs : List A) (i : ℕ) (v : A) → count_if (set xs i v) ≤ suc (count_if xs)
  count_if-set_le [] i v = omega arith
  count_if-set_le (x ∷ xs) zero v = ground arith
  count_if-set_le (x ∷ xs) (suc i) v = ground (arith, count_if-set_le xs i v)

  pub count_if-none : (xs : List A) → find_index p xs ≡ none → count_if xs ≡ 0
  count_if-none [] h = refl
  count_if-none (x ∷ xs) h = elim (Bool-cases (p x)) [
    | inl e ↦ cc (rw e at h)
    | inr e ↦ rw e (count_if-none xs (next_index-none _ (rw e at h)))
  ]

  pub count_if-replicate : (n : ℕ) (a : A) → p a ≡ false → count_if (replicate n a) ≡ 0
  count_if-replicate zero a h = refl
  count_if-replicate (suc n) a h = rw h (count_if-replicate n a h)
