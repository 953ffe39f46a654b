-- ===== src/Db/Pool/Victims.antt =====
-- The list of victims of `Resize`: distinct frames that are in use and unpinned, as many as needed.
use nexus_db.Prelude.{
  ℕ, zero, suc, ◌+◌, ◌≤◌, ◌≡◌, ◌≢◌, refl, sym, ap, ◌∙◌, inl, inr, Bool, true, List, [], ◌∷◌, leb,
  length, take, All, Bool-cases, subst, arith,
}
use nexus_db.Db.Pool.{Frame, frame_at, can_go, indices, insert_by, sort_by_use}

unfoldable pub Distinct : List ℕ → Type 0
Distinct [] = Unit
Distinct (i ∷ is) = All (λ j. i ≢ j) is × Distinct is

-- Indices that are pairwise distinct and each have a property.
pub record Chosen (P : ℕ → Type 0) (is : List ℕ) : Type 0 where
  pub each : All P is
  pub distinct : Distinct is

All-insert_by :
    (P : ℕ → Type 0) (frames : List Frame) (i : ℕ) (is : List ℕ)
    → P i
    → All P is
    → All P (insert_by frames i is)
unfolding insert_by
All-insert_by P frames i [] p h = (p, tt)
All-insert_by P frames i (j ∷ js) p h =
    elim (Bool-cases (leb (frame_at frames i).last_used (frame_at frames j).last_used)) [
      | inl e ↦ rw e (p, h)
      | inr e ↦ rw e (h.0, All-insert_by P frames i js p h.1)
    ]

pub All-sym : (i : ℕ) (is : List ℕ) → All (λ j. i ≢ j) is → All (λ j. j ≢ i) is
All-sym i [] h = tt
All-sym i (j ∷ js) h = ((λ e. h.0 (sym e)), All-sym i js h.1)

Distinct-insert_by :
    (frames : List Frame) (i : ℕ) (is : List ℕ)
    → All (λ j. i ≢ j) is
    → Distinct is
    → Distinct (insert_by frames i is)
unfolding insert_by Distinct
Distinct-insert_by frames i [] h d = (tt, tt)
Distinct-insert_by frames i (j ∷ js) h d =
    elim (Bool-cases (leb (frame_at frames i).last_used (frame_at frames j).last_used)) [
      | inl e ↦ rw e (h, d)
      | inr e ↦ rw e (
        All-insert_by (λ k. j ≢ k) frames i js (λ x. h.0 (sym x)) d.0,
        Distinct-insert_by frames i js h.1 d.1,
      )
    ]

All-sort :
    (P : ℕ → Type 0) (frames : List Frame) (is : List ℕ) → All P is → All P (sort_by_use frames is)
unfolding sort_by_use
All-sort P frames [] h = tt
All-sort P frames (i ∷ is) h =
    All-insert_by P frames i (sort_by_use frames is) h.0 (All-sort P frames is h.1)

Distinct-sort : (frames : List Frame) (is : List ℕ) → Distinct is → Distinct (sort_by_use frames is)
unfolding sort_by_use Distinct
Distinct-sort frames [] d = tt
Distinct-sort frames (i ∷ is) d =
    Distinct-insert_by frames i (sort_by_use frames is) (All-sort (λ j. i ≢ j) frames is d.0)
      (Distinct-sort frames is d.1)

All-take : (P : ℕ → Type 0) (n : ℕ) (is : List ℕ) → All P is → All P (take n is)
All-take P zero is h = tt
All-take P (suc n) [] h = tt
All-take P (suc n) (i ∷ is) h = (h.0, All-take P n is h.1)

Distinct-take : (n : ℕ) (is : List ℕ) → Distinct is → Distinct (take n is)
unfolding Distinct
Distinct-take zero is d = tt
Distinct-take (suc n) [] d = tt
Distinct-take (suc n) (i ∷ is) d = (All-take (λ j. i ≢ j) n is d.0, Distinct-take n is d.1)

length-insert_by :
    (frames : List Frame) (i : ℕ) (is : List ℕ) → length (insert_by frames i is) ≡ suc (length is)
unfolding insert_by
length-insert_by frames i [] = refl
length-insert_by frames i (j ∷ js) =
    elim (Bool-cases (leb (frame_at frames i).last_used (frame_at frames j).last_used)) [
      | inl e ↦ rw e refl
      | inr e ↦ rw e (ap suc (length-insert_by frames i js))
    ]

length-sort : (frames : List Frame) (is : List ℕ) → length (sort_by_use frames is) ≡ length is
unfolding sort_by_use
length-sort frames [] = refl
length-sort frames (i ∷ is) =
    length-insert_by frames i (sort_by_use frames is) ∙ ap suc (length-sort frames is)

length-take : (n : ℕ) (is : List ℕ) → n ≤ length is → length (take n is) ≡ n
length-take zero is h = refl
length-take (suc n) [] h = absurd (omega arith)
length-take (suc n) (i ∷ is) h = ap suc (length-take n is (omega arith))

-- Each index of a frame that passes, and no index twice.
All-indices :
    (test : Frame → Bool) (P : ℕ → Type 0) (fs : List Frame) (i : ℕ)
    → ((k : ℕ) → test (frame_at fs k) ≡ true → P (i + k))
    → All P (indices test fs i)
unfolding indices
All-indices test P [] i h = tt
All-indices test P (f ∷ fs) i h =
    let rest = All-indices test P fs (i + 1) (λ k e. subst P (omega arith) (h (suc k) e)) in
    elim (Bool-cases (test f)) [
      | inl e ↦ rw e (subst P (omega arith) (h 0 e), rest)
      | inr e ↦ rw e rest
    ]

Distinct-indices : (test : Frame → Bool) (fs : List Frame) (i : ℕ) → Distinct (indices test fs i)
unfolding indices Distinct
Distinct-indices test [] i = tt
Distinct-indices test (f ∷ fs) i = elim (Bool-cases (test f)) [
  | inl e ↦ rw e (
    All-indices test (λ j. i ≢ j) fs (i + 1) (λ k t. omega arith),
    Distinct-indices test fs (i + 1),
  )
  | inr e ↦ rw e (Distinct-indices test fs (i + 1))
]

-- The victims of a shrink by `n` pages.
pub victims-Chosen :
    (frames : List Frame) (n : ℕ)
    → n ≤ length (indices can_go frames 0)
    → let victims = take n (sort_by_use frames (indices can_go frames 0)) in
      Chosen (λ i. can_go (frame_at frames i) ≡ true) victims × (length victims ≡ n)
victims-Chosen frames n le =
    let is = indices can_go frames 0 in
    let goes : ℕ → Type 0 = λ i. can_go (frame_at frames i) ≡ true in
    let all = All-indices can_go goes frames 0 (λ k e. subst goes (omega arith) e) in
    let size = length-sort frames is in
    (
      record {
        each = All-take goes n (sort_by_use frames is) (All-sort goes frames is all);
        distinct =
            Distinct-take n (sort_by_use frames is)
              (Distinct-sort frames is (Distinct-indices can_go frames 0));
      },
      length-take n (sort_by_use frames is) (omega arith),
    )
