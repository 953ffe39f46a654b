-- ===== src/Db/Pool/Frames.antt =====
-- The pages that a pool and its storage show together, and when a change of the frames keeps them.
use nexus_db.Prelude.{
  ℕ, zero, suc, ◌<◌, ◌≡◌, ◌≢◌, refl, sym, ap, ◌∙◌, subst, ◌⊎◌, inl, inr, Bool, true, false, none,
  some, List, [], ◌∷◌, ◌==◌, if◌then◌else◌, length, set, find_index, Bool-cases, Option-cases,
  arith,
}
use nexus_db.Prelude.Search.{get_or-set_self, get_or-set_ne, find_index-passes, next_index-none}
use nexus_db.Db.Page.{Bytes, Whole}
use nexus_db.Db.Pool.{Frame, empty_frame, frame_at, holds, find_frame}

pub frame_at-set :
    (frames : List Frame) (i k : ℕ) (f : Frame)
    → i < length frames
    → frame_at (set frames i f) k ≡ (if k == i then f else frame_at frames k)
frame_at-set frames i k f lt = elim (Bool-cases (k == i)) [
  | inl e ↦
      let same : k ≡ i = ground arith in
      ap (frame_at (set frames i f)) same ∙ get_or-set_self frames i f empty_frame lt ∙ ground arith
  | inr e ↦
      let other : i ≢ k = ground arith in
      get_or-set_ne frames i k f empty_frame other ∙ ground arith
]

-- A search that fails passed every frame.
pub find_index-none :
    (p : Frame → Bool) (frames : List Frame) (k : ℕ)
    → p empty_frame ≡ false
    → find_index p frames ≡ none
    → p (frame_at frames k) ≡ false
find_index-none p [] k e h = e
find_index-none p (f ∷ fs) zero e h = elim (Bool-cases (p f)) [ inl t ↦ cc (rw t at h) | inr t ↦ t ]
find_index-none p (f ∷ fs) (suc k) e h = elim (Bool-cases (p f)) [
  | inl t ↦ cc (rw t at h)
  | inr t ↦ find_index-none p fs k e (next_index-none _ (rw t at h))
]

pub holds-used : (id : ℕ) (f : Frame) → holds id f ≡ true → (f.in_use ≡ true) × (f.page.id ≡ id)
holds-used id f h = (ground arith, ground arith)

-- A frame holds the page, or none does.
pub held_cases :
    (id : ℕ) (frames : List Frame)
    → ((i : ℕ) × (find_frame id frames ≡ some i)
        × (i < length frames)
        × (holds id (frame_at frames i) ≡ true))
      ⊎ ((find_frame id frames ≡ none) × ((k : ℕ) → holds id (frame_at frames k) ≡ false))
held_cases id frames = elim (Option-cases (find_frame id frames)) [
  | inl e ↦ inr (e, λ k. find_index-none (holds id) frames k refl e)
  | inr (i, e) ↦
      let (lt, h) = find_index-passes (holds id) frames i empty_frame e in inl (i, e, lt, h)
]

-- A page is in one frame at most.
unfoldable pub Unique : List Frame → Type 0
Unique frames =
    (i k id : ℕ) → holds id (frame_at frames i) ≡ true → holds id (frame_at frames k) ≡ true → i ≡ k

-- A clean page is the one in the storage.
unfoldable pub Clean : (ℕ → Bytes) → List Frame → Type 0
Clean content frames =
    (i : ℕ)
    → (frame_at frames i).in_use ≡ true
    → (frame_at frames i).page.dirty ≡ false
    → (frame_at frames i).page.bytes ≡ content (frame_at frames i).page.id

-- The bytes that a reader of page `id` gets: those in the pool, or else those in the storage.
unfoldable pub view : (ℕ → Bytes) → List Frame → ℕ → Bytes
view content frames id = elim (find_frame id frames) [
  | none ↦ content id
  | some i ↦ (frame_at frames i).page.bytes
]

pub view-held :
    (content : ℕ → Bytes) (frames : List Frame) (id i : ℕ)
    → Unique frames
    → holds id (frame_at frames i) ≡ true
    → view content frames id ≡ (frame_at frames i).page.bytes
unfolding view Unique
view-held content frames id i unique h = elim (held_cases id frames) [
  | inl (k, e, lt, h') ↦
      rw (e, view) (ap (λ m. (frame_at frames m).page.bytes) (unique k i id h' h))
  | inr (e, free) ↦ cc (free i)
]

pub view-free :
    (content : ℕ → Bytes) (frames : List Frame) (id : ℕ)
    → ((k : ℕ) → holds id (frame_at frames k) ≡ false)
    → view content frames id ≡ content id
unfolding view
view-free content frames id free = elim (held_cases id frames) [
  | inl (k, e, lt, h) ↦ cc (free k)
  | inr (e, h) ↦ rw (e, view) refl
]

-- The same pages are in the same frames.
unfoldable pub Resembles : List Frame → List Frame → Type 0
Resembles before after =
    (k : ℕ)
    → ((frame_at after k).in_use ≡ (frame_at before k).in_use)
      × ((frame_at before k).in_use ≡ true
          → ((frame_at after k).page.id ≡ (frame_at before k).page.id)
            × ((frame_at after k).page.bytes ≡ (frame_at before k).page.bytes))

pub holds-Resembles :
    (before after : List Frame) (id k : ℕ)
    → Resembles before after
    → holds id (frame_at after k) ≡ holds id (frame_at before k)
unfolding Resembles
holds-Resembles before after id k r = elim (Bool-cases (frame_at before k).in_use) [
  | inl e ↦ let (used, same) = r k in let (i, b) = same e in rw (used, i) refl
  | inr e ↦ let (used, same) = r k in rw (used, e) refl
]

pub Resembles-Unique :
    (before after : List Frame) → Resembles before after → Unique before → Unique after
unfolding Unique
Resembles-Unique before after r unique i k id hi hk =
    unique i k id (sym (holds-Resembles before after id i r) ∙ hi)
      (sym (holds-Resembles before after id k r) ∙ hk)

pub view-Resembles :
    (content content' : ℕ → Bytes) (before after : List Frame)
    → Unique before
    → Resembles before after
    → ((id : ℕ) → ((k : ℕ) → holds id (frame_at before k) ≡ false) → content' id ≡ content id)
    → (id : ℕ) → view content' after id ≡ view content before id
unfolding Resembles
view-Resembles content content' before after unique r outside id = elim (held_cases id before) [
  | inl (i, e, lt, h) ↦
      let h' = holds-Resembles before after id i r ∙ h in
      view-held content' after id i (Resembles-Unique before after r unique) h'
      ∙ ((r i).1 (holds-used id (frame_at before i) h).0).1
      ∙ sym (view-held content before id i unique h)
  | inr (e, free) ↦
      view-free content' after id (λ k. holds-Resembles before after id k r ∙ free k)
      ∙ outside id free
      ∙ sym (view-free content before id free)
]

pub used_inside :
    (frames : List Frame) (i : ℕ) → (frame_at frames i).in_use ≡ true → i < length frames
used_inside [] i h = cc
used_inside (f ∷ fs) zero h = omega arith
used_inside (f ∷ fs) (suc i) h = let rest = used_inside fs i h in omega arith

-- No frame has bytes behind the end of its page.
unfoldable pub Filled : List Frame → Type 0
Filled frames = (i : ℕ) → (frame_at frames i).in_use ≡ true → Whole (frame_at frames i).page.bytes

pub Resembles-Filled :
    (before after : List Frame) → Resembles before after → Filled before → Filled after
unfolding Resembles Filled
Resembles-Filled before after r filled i used =
    let (u, same) = r i in let was = sym u ∙ used in subst Whole (sym (same was).1) (filled i was)

pub record Coherent (content : ℕ → Bytes) (frames : List Frame) : Type 0 where
  pub unique : Unique frames
  pub clean : Clean content frames
  pub filled : Filled frames
