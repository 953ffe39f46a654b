-- ===== src/Db/Page/Access.antt =====
-- What is read after a write.
use nexus_db.Prelude.{
  ℕ, zero, suc, ◌+◌, ◌-◌, ◌≤◌, ◌<◌, ◌≡◌, refl, ap, ◌∙◌, ◌⊎◌, List, [], ◌∷◌, ◌==◌, if◌then◌else◌,
  length, get_or, arith,
}
use nexus_db.Db.Page.{Bytes, read_u16, write_u16, copy, clear, bytes_at}

-- Two ranges that do not meet.
abbrev pub Apart : ℕ → ℕ → ℕ → ℕ → Type 0
Apart i n j m = (i + n ≤ j) ⊎ (j + m ≤ i)

pub read_u16-write_u16 :
    (d : Bytes) (i v j : ℕ)
    → v < 65536
    → (i ≡ j) ⊎ Apart i 2 j 2
    → read_u16 (write_u16 d i v) j ≡ (if i == j then v else read_u16 d j)
unfolding read_u16 write_u16
read_u16-write_u16 d i v j small h = ground arith

pub read_u16-copy :
    (d : Bytes) (i : ℕ) (xs : List ℕ) (j : ℕ)
    → Apart i (length xs) j 2
    → read_u16 (copy d i xs) j ≡ read_u16 d j
unfolding read_u16 copy
read_u16-copy d i xs j h = ground arith

pub read_u16-clear :
    (d : Bytes) (i n j : ℕ) → Apart i n j 2 → read_u16 (clear d i n) j ≡ read_u16 d j
unfolding read_u16 clear
read_u16-clear d i n j h = ground arith

pub bytes_at-eq :
    (d d' : Bytes) (i n : ℕ)
    → ((k : ℕ) → i ≤ k → k < i + n → d' k ≡ d k)
    → bytes_at d' i n ≡ bytes_at d i n
unfolding bytes_at
bytes_at-eq d d' i zero h = refl
bytes_at-eq d d' i (suc n) h =
    let first = h i (omega arith) (omega arith) in
    let rest = bytes_at-eq d d' (i + 1) n (λ k lo hi. h k (omega arith) (omega arith)) in
    rw (first, rest) refl

pub bytes_at-write_u16 :
    (d : Bytes) (i v j n : ℕ) → Apart i 2 j n → bytes_at (write_u16 d i v) j n ≡ bytes_at d j n
unfolding write_u16
bytes_at-write_u16 d i v j n h = bytes_at-eq d (write_u16 d i v) j n (λ k lo hi. ground arith)

pub bytes_at-copy :
    (d : Bytes) (i : ℕ) (xs : List ℕ) (j n : ℕ)
    → Apart i (length xs) j n
    → bytes_at (copy d i xs) j n ≡ bytes_at d j n
unfolding copy
bytes_at-copy d i xs j n h = bytes_at-eq d (copy d i xs) j n (λ k lo hi. ground arith)

pub bytes_at-clear :
    (d : Bytes) (i m j n : ℕ) → Apart i m j n → bytes_at (clear d i m) j n ≡ bytes_at d j n
unfolding clear
bytes_at-clear d i m j n h = bytes_at-eq d (clear d i m) j n (λ k lo hi. ground arith)

pub length-bytes_at : (d : Bytes) (i n : ℕ) → length (bytes_at d i n) ≡ n
unfolding bytes_at
length-bytes_at d i zero = refl
length-bytes_at d i (suc n) = ap suc (length-bytes_at d (i + 1) n)

bytes_at-list :
    (d : Bytes) (i : ℕ) (xs : List ℕ)
    → ((k : ℕ) → k < length xs → d (i + k) ≡ get_or xs k 0)
    → bytes_at d i (length xs) ≡ xs
unfolding bytes_at
bytes_at-list d i [] h = refl
bytes_at-list d i (x ∷ xs) h =
    let first : d i ≡ x = ap d (omega arith) ∙ h 0 (omega arith) in
    let rest = bytes_at-list d (i + 1) xs (λ k lt. ap d (omega arith) ∙ h (suc k) (omega arith)) in
    rw (first, rest) refl

pub bytes_at-copy_self :
    (d : Bytes) (i : ℕ) (xs : List ℕ) → bytes_at (copy d i xs) i (length xs) ≡ xs
unfolding copy
bytes_at-copy_self d i xs =
    bytes_at-list (copy d i xs) i xs
      (λ k lt. let e : i + k - i ≡ k = omega arith in ground (arith, ap (λ m. get_or xs m 0) e))

pub get_or-bytes_at : (d : Bytes) (i n k : ℕ) → k < n → get_or (bytes_at d i n) k 0 ≡ d (i + k)
unfolding bytes_at
get_or-bytes_at d i zero k lt = omega arith
get_or-bytes_at d i (suc n) zero lt = ap d (omega arith)
get_or-bytes_at d i (suc n) (suc k) lt =
    get_or-bytes_at d (i + 1) n k (omega arith) ∙ ap d (omega arith)

-- Bytes that were copied from `s`, from the same place.
pub bytes_at-copy_from :
    (d s : Bytes) (i m j n : ℕ)
    → i ≤ j
    → j + n ≤ i + m
    → bytes_at (copy d i (bytes_at s i m)) j n ≡ bytes_at s j n
unfolding copy
bytes_at-copy_from d s i m j n lo hi = bytes_at-eq s (copy d i (bytes_at s i m)) j n (λ k low high.
    let size = length-bytes_at s i m in
    let e = get_or-bytes_at s i m (k - i) (omega arith) in
    let same : s (i + (k - i)) ≡ s k = ap s (omega arith) in ground arith)
