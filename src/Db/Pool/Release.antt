-- ===== src/Db/Pool/Release.antt =====
-- What `Resize` does to the frames once the victims are written back, and how it adds frames.
use nexus_db.Prelude.{
  ℕ, zero, suc, ◌+◌, ◌-◌, ◌≤◌, ◌≡◌, ◌≢◌, refl, sym, ap, ◌∙◌, inl, inr, true, false, not, ◌&&◌, List,
  [], ◌∷◌, ◌++◌, ◌==◌, if◌then◌else◌, length, set, replicate, All, Bool-cases, length-set, arith,
}
use nexus_db.Prelude.Search.{get_or-set_ne}
use nexus_db.Db.Page.{Bytes}
use nexus_db.Db.Pool.{Frame, empty_frame, frame_at, holds, size, trim, release}
use nexus_db.Db.Pool.Frames.{
  frame_at-set, held_cases, holds-used, used_inside, Unique, Clean, Filled, Coherent, view,
  view-held, view-free,
}
use nexus_db.Db.Pool.Victims.{Distinct}

-- Frames read alike at every index.
pub frame_at-append :
    (frames : List Frame) (n k : ℕ)
    → frame_at (frames ++ replicate n empty_frame) k ≡ frame_at frames k
frame_at-append [] zero k = refl
frame_at-append [] (suc n) zero = refl
frame_at-append [] (suc n) (suc k) = frame_at-append [] n k
frame_at-append (f ∷ fs) n zero = refl
frame_at-append (f ∷ fs) n (suc k) = frame_at-append fs n k

pub size-append :
    (frames : List Frame) (n : ℕ) → size (frames ++ replicate n empty_frame) ≡ size frames
size-append [] zero = refl
size-append [] (suc n) = size-append [] n
size-append (f ∷ fs) n = rw (size-append fs n) refl

no_frames :
    (frames : List Frame)
    → (length frames == 0) ≡ true
    → ((k : ℕ) → frame_at frames k ≡ empty_frame) × (size frames ≡ 0)
no_frames [] h = ((λ k. refl), refl)
no_frames (f ∷ fs) h = absurd (ground arith)

-- Only frames that are free go.
pub frame_at-trim :
    (n : ℕ) (frames : List Frame) (k : ℕ)
    → ((frame_at (trim n frames) k).in_use ≡ (frame_at frames k).in_use)
      × ((frame_at frames k).in_use ≡ true → frame_at (trim n frames) k ≡ frame_at frames k)
unfolding trim
frame_at-trim n [] k = (refl, λ u. refl)
frame_at-trim n (f ∷ fs) zero =
    elim (Bool-cases (n == 0 && (not f.in_use && length (trim (n - 1) fs) == 0))) [
      | inl e ↦ let free : f.in_use ≡ false = ground arith in rw (e, free) (refl, λ u. cc)
      | inr e ↦ rw e (refl, λ u. refl)
    ]
frame_at-trim n (f ∷ fs) (suc k) =
    let (used, same) = frame_at-trim (n - 1) fs k in
    elim (Bool-cases (n == 0 && (not f.in_use && length (trim (n - 1) fs) == 0))) [
      | inl e ↦
          let (none, size) = no_frames (trim (n - 1) fs) (ground arith) in
          let free : (frame_at fs k).in_use ≡ false = sym used ∙ ap (λ x. x.in_use) (none k) in
          rw (e, free) (refl, λ u. cc)
      | inr e ↦ rw e (used, same)
    ]

pub size-trim : (n : ℕ) (frames : List Frame) → size (trim n frames) ≡ size frames
unfolding trim
size-trim n [] = refl
size-trim n (f ∷ fs) =
    let rest = size-trim (n - 1) fs in
    elim (Bool-cases (n == 0 && (not f.in_use && length (trim (n - 1) fs) == 0))) [
      | inl e ↦
          let (none, size) = no_frames (trim (n - 1) fs) (ground arith) in
          let free : f.in_use ≡ false = ground arith in rw (e, free) (sym size ∙ rest)
      | inr e ↦ rw (e, rest) refl
    ]

pub length-trim : (n : ℕ) (frames : List Frame) → n ≤ length frames → n ≤ length (trim n frames)
unfolding trim
length-trim n [] h = h
length-trim n (f ∷ fs) h =
    let rest = length-trim (n - 1) fs (omega arith) in
    elim (Bool-cases (n == 0 && (not f.in_use && length (trim (n - 1) fs) == 0))) [
      | inl e ↦ ground arith
      | inr e ↦ rw e (omega arith)
    ]

size-set_free :
    (frames : List Frame) (i : ℕ)
    → (frame_at frames i).in_use ≡ true
    → suc (size (set frames i empty_frame)) ≡ size frames
size-set_free [] i h = cc
size-set_free (f ∷ fs) zero h = rw h refl
size-set_free (f ∷ fs) (suc i) h = let rest = size-set_free fs i h in ground arith

-- A frame whose page the storage has is given up.
module _ (content : ℕ → Bytes) (frames : List Frame) (i : ℕ) (c : Coherent content frames)
    (used : (frame_at frames i).in_use ≡ true)
    (clean : (frame_at frames i).page.dirty ≡ false) where
  at :
      (k : ℕ)
      → frame_at (set frames i empty_frame) k ≡ (if k == i then empty_frame else frame_at frames k)
  at k = frame_at-set frames i k empty_frame (used_inside frames i used)

  holds-free :
      (id k : ℕ)
      → holds id (frame_at (set frames i empty_frame) k)
        ≡ (if k == i then false else holds id (frame_at frames k))
  holds-free id k = elim (Bool-cases (k == i)) [
    | inl e ↦ rw (at k, e) refl
    | inr e ↦ rw (at k, e) refl
  ]

  free-Coherent : Coherent content (set frames i empty_frame)
  unfolding Unique Clean Filled
  free-Coherent = record {
    unique = λ a b id ha hb.
        let ea = holds-free id a in
        let eb = holds-free id b in c.unique a b id (ground arith) (ground arith);
    clean = λ k. elim (Bool-cases (k == i)) [
      | inl e ↦ rw (at k, e) (λ u d. cc)
      | inr e ↦ rw (at k, e) (c.clean k)
    ];
    filled = λ k. elim (Bool-cases (k == i)) [
      | inl e ↦ rw (at k, e) (λ u. cc)
      | inr e ↦ rw (at k, e) (c.filled k)
    ];
  }

  view-free_frame : (id : ℕ) → view content (set frames i empty_frame) id ≡ view content frames id
  unfolding Clean Unique
  view-free_frame id = elim (held_cases id frames) [
    | inl (k, e, lt, h) ↦ elim (Bool-cases (k == i)) [
      | inl same ↦
          let eq : k ≡ i = ground arith in
          let (u, named) = holds-used id (frame_at frames k) h in
          let clean_k = ap (λ m. (frame_at frames m).page.dirty) eq ∙ clean in
          view-free content (set frames i empty_frame) id (λ m.
            elim (Bool-cases (holds id (frame_at frames m))) [
              | inl h' ↦ let m_k = c.unique m k id h' h in holds-free id m ∙ ground arith
              | inr h' ↦ holds-free id m ∙ ground arith
            ])
          ∙ sym (view-held content frames id k c.unique h ∙ c.clean k u clean_k ∙ ap content named)
      | inr other ↦
          let here : frame_at (set frames i empty_frame) k ≡ frame_at frames k =
            at k ∙ rw other refl in
          view-held content (set frames i empty_frame) id k free-Coherent.unique
            (holds-free id k ∙ rw other h)
          ∙ ap (λ f. f.page.bytes) here
          ∙ sym (view-held content frames id k c.unique h)
    ]
    | inr (e, free) ↦
        view-free content (set frames i empty_frame) id
          (λ m. let none = free m in holds-free id m ∙ ground arith)
        ∙ sym (view-free content frames id free)
  ]

-- The victims of a shrink are given up, one after the other.
pub record Released (content : ℕ → Bytes) (victims : List ℕ) (frames after : List Frame)
    : Type 0 where
  pub coherent : Coherent content after
  pub shown : (id : ℕ) → view content after id ≡ view content frames id
  pub size : size after + length victims ≡ size frames
  pub count : length after ≡ length frames
  pub others : (k : ℕ) → All (λ i. i ≢ k) victims → frame_at after k ≡ frame_at frames k

All-still :
    (frames next : List Frame) (i : ℕ) (is : List ℕ)
    → ((j : ℕ) → i ≢ j → frame_at next j ≡ frame_at frames j)
    → All (λ j. i ≢ j) is
    → All (λ j. ((frame_at frames j).in_use ≡ true) × ((frame_at frames j).page.dirty ≡ false)) is
    → All (λ j. ((frame_at next j).in_use ≡ true) × ((frame_at next j).page.dirty ≡ false)) is
All-still frames next i [] same ne h = tt
All-still frames next i (j ∷ js) same ne h = (
  (ap (λ f. f.in_use) (same j ne.0) ∙ h.0.0, ap (λ f. f.page.dirty) (same j ne.0) ∙ h.0.1),
  All-still frames next i js same ne.1 h.1,
)

pub release-Released :
    (content : ℕ → Bytes) (victims : List ℕ) (frames : List Frame)
    → Coherent content frames
    → Distinct victims
    → All
        (λ i. ((frame_at frames i).in_use ≡ true) × ((frame_at frames i).page.dirty ≡ false))
        victims
    → Released content victims frames (release victims frames)
unfolding release Distinct
release-Released content [] frames c d h = record {
  coherent = c;
  shown = λ id. refl;
  size = omega arith;
  count = refl;
  others = λ k ne. refl;
}
release-Released content (i ∷ is) frames c d h =
    let next = set frames i empty_frame in
    let (used, clean) = h.0 in
    let same : (j : ℕ) → i ≢ j → frame_at next j ≡ frame_at frames j =
      λ j ne. get_or-set_ne frames i j empty_frame empty_frame ne in
    let rest =
      release-Released content is next (free-Coherent content frames i c used clean) d.1
        (All-still frames next i is same d.0 h.1) in
    let less = size-set_free frames i used in
    let sum = rest.size in
    record {
      coherent = rest.coherent;
      shown = λ id. rest.shown id ∙ view-free_frame content frames i c used clean id;
      size = omega arith;
      count = rest.count ∙ length-set frames i empty_frame;
      others = λ k ne. rest.others k ne.1 ∙ same k ne.0;
    }
