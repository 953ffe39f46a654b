-- ===== src/Db/Pool/Stamps.antt =====
-- The access clock changes nothing but stamps.
use nexus_db.Prelude.{
  ℕ, zero, suc, ◌+◌, ◌≡◌, refl, ◌∙◌, inl, inr, List, [], ◌∷◌, ◌==◌, length, set, Bool-cases,
  length-set,
}
use nexus_db.Prelude.Search.{count_if-set_same}
use nexus_db.Db.Pool.{
  Frame, Pool, empty_frame, frame_at, is_used, size, restamp, renumber, next_timestamp, touch,
  sort_by_use, indices, stamp_max,
}

-- A field that a write leaves alone is the same in every frame.
pub field-set {ℓ} :
    {B : Type ℓ} (g : Frame → B) (frames : List Frame) (i k : ℕ) (f : Frame)
    → g f ≡ g (frame_at frames i)
    → g (frame_at (set frames i f) k) ≡ g (frame_at frames k)
field-set g [] i k f h = refl
field-set g (x ∷ xs) zero zero f h = h
field-set g (x ∷ xs) zero (suc k) f h = refl
field-set g (x ∷ xs) (suc i) zero f h = refl
field-set g (x ∷ xs) (suc i) (suc k) f h = field-set g xs i k f h

pub record Restamped (before after : List Frame) : Type 0 where
  pub page : (k : ℕ) → (frame_at after k).page ≡ (frame_at before k).page
  pub pins : (k : ℕ) → (frame_at after k).pin_count ≡ (frame_at before k).pin_count
  pub used : (k : ℕ) → (frame_at after k).in_use ≡ (frame_at before k).in_use
  pub count : length after ≡ length before
  pub size : size after ≡ size before

Restamped-self : (frames : List Frame) → Restamped frames frames
Restamped-self frames = record {
  page = λ k. refl;
  pins = λ k. refl;
  used = λ k. refl;
  count = refl;
  size = refl;
}

pub Restamped-trans : (a b c : List Frame) → Restamped a b → Restamped b c → Restamped a c
Restamped-trans a b c h k = record {
  page = λ i. k.page i ∙ h.page i;
  pins = λ i. k.pins i ∙ h.pins i;
  used = λ i. k.used i ∙ h.used i;
  count = k.count ∙ h.count;
  size = k.size ∙ h.size;
}

pub set-Restamped :
    (frames : List Frame) (i stamp : ℕ)
    → Restamped frames (set frames i (record (frame_at frames i) { last_used = stamp }))
set-Restamped frames i stamp =
    let f = record (frame_at frames i) { last_used = stamp } in
    record {
      page = λ k. field-set (λ x. x.page) frames i k f refl;
      pins = λ k. field-set (λ x. x.pin_count) frames i k f refl;
      used = λ k. field-set (λ x. x.in_use) frames i k f refl;
      count = length-set frames i f;
      size = count_if-set_same is_used frames i f empty_frame refl;
    }

restamp-Restamped :
    (order : List ℕ) (stamp : ℕ) (frames : List Frame)
    → Restamped frames (restamp order stamp frames)
unfolding restamp
restamp-Restamped [] stamp frames = Restamped-self frames
restamp-Restamped (i ∷ is) stamp frames =
    let f = record (frame_at frames i) { last_used = stamp + 1 } in
    Restamped-trans frames (set frames i f) (restamp is (stamp + 1) (set frames i f))
      (set-Restamped frames i (stamp + 1)) (restamp-Restamped is (stamp + 1) (set frames i f))

pub next_timestamp-Restamped :
    (p : Pool)
    → Restamped p.frames (next_timestamp p).1.frames × ((next_timestamp p).1.capacity ≡ p.capacity)
unfolding next_timestamp renumber
next_timestamp-Restamped p = elim (Bool-cases (p.clock == stamp_max)) [
  | inl e ↦
      rw e (restamp-Restamped (sort_by_use p.frames (indices is_used p.frames 0)) 0 p.frames, refl)
  | inr e ↦ rw e (Restamped-self p.frames, refl)
]

pub touch-Restamped :
    (i : ℕ) (p : Pool) → Restamped p.frames (touch i p).frames × ((touch i p).capacity ≡ p.capacity)
unfolding touch
touch-Restamped i p =
    let (stamp, p') = next_timestamp p in
    let (r, cap) = next_timestamp-Restamped p in
    let f = record (frame_at p'.frames i) { last_used = stamp } in
    (
      Restamped-trans p.frames p'.frames (set p'.frames i f) r (set-Restamped p'.frames i stamp),
      cap,
    )
