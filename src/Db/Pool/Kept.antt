-- ===== src/Db/Pool/Kept.antt =====
-- What a write of pages to the storage leaves in the pool, and for its readers.
use nexus_db.Prelude.{
  ℕ, ◌≡◌, ◌≢◌, refl, sym, ap, ◌∙◌, subst, inl, inr, true, false, List, ◌==◌, if◌then◌else◌, length,
  set, Bool-cases, length-set, arith,
}
use nexus_db.Prelude.Search.{count_if-set_same}
use nexus_db.Db.Page.{Bytes}
use nexus_db.Db.Pool.{Frame, Pool, empty_frame, frame_at, holds, is_used, size}
use nexus_db.Db.Pool.Frames.{
  frame_at-set, used_inside, Unique, Clean, Coherent, view, Resembles, Resembles-Unique,
  Resembles-Filled, view-Resembles,
}

-- Nothing but dirty marks has changed in the pool, and readers see the same pages.
pub record Kept (before after : ℕ → Bytes) (p p' : Pool) : Type 0 where
  pub capacity : p'.capacity ≡ p.capacity
  pub length : length p'.frames ≡ length p.frames
  pub size : size p'.frames ≡ size p.frames
  pub pins : (k : ℕ) → (frame_at p'.frames k).pin_count ≡ (frame_at p.frames k).pin_count
  pub uses : (k : ℕ) → (frame_at p'.frames k).last_used ≡ (frame_at p.frames k).last_used
  pub resembles : Resembles p.frames p'.frames
  pub shown : (id : ℕ) → view after p'.frames id ≡ view before p.frames id
  pub coherent : Coherent after p'.frames

pub in_use-Kept :
    (before after : ℕ → Bytes) (p p' : Pool)
    → Kept before after p p'
    → (k : ℕ) → (frame_at p'.frames k).in_use ≡ (frame_at p.frames k).in_use
unfolding Resembles
in_use-Kept before after p p' kept k = (kept.resembles k).0

pub Resembles-self : (frames : List Frame) → Resembles frames frames
unfolding Resembles
Resembles-self frames k = (refl, λ used. (refl, refl))

pub Kept-self :
    (content : ℕ → Bytes) (p : Pool) → Coherent content p.frames → Kept content content p p
Kept-self content p c = record {
  capacity = refl;
  length = refl;
  size = refl;
  pins = λ k. refl;
  uses = λ k. refl;
  resembles = Resembles-self p.frames;
  shown = λ id. refl;
  coherent = c;
}

pub Resembles-trans : (a b c : List Frame) → Resembles a b → Resembles b c → Resembles a c
unfolding Resembles
Resembles-trans a b c r s k =
    let (u, same) = r k in
    let (v, same') = s k in
    (v ∙ u, λ used. let (i, x) = same used in let (j, y) = same' (u ∙ used) in (j ∙ i, y ∙ x))

pub Kept-trans : (a b c : ℕ → Bytes) (p q r : Pool) → Kept a b p q → Kept b c q r → Kept a c p r
Kept-trans a b c p q r h k = record {
  capacity = k.capacity ∙ h.capacity;
  length = k.length ∙ h.length;
  size = k.size ∙ h.size;
  pins = λ i. k.pins i ∙ h.pins i;
  uses = λ i. k.uses i ∙ h.uses i;
  resembles = Resembles-trans p.frames q.frames r.frames h.resembles k.resembles;
  shown = λ id. k.shown id ∙ h.shown id;
  coherent = k.coherent;
}

-- The storage may change, but for what it has.
pub same-Kept :
    (before after : ℕ → Bytes) (p : Pool)
    → Coherent before p.frames
    → ((j : ℕ) → after j ≡ before j)
    → Kept before after p p
unfolding Clean
same-Kept before after p c same = record {
  capacity = refl;
  length = refl;
  size = refl;
  pins = λ k. refl;
  uses = λ k. refl;
  resembles = Resembles-self p.frames;
  shown =
      view-Resembles before after p.frames p.frames c.unique (Resembles-self p.frames)
        (λ id free. same id);
  coherent = record {
    unique = c.unique;
    clean = λ k used clean_k. c.clean k used clean_k ∙ sym (same (frame_at p.frames k).page.id);
    filled = c.filled;
  };
}

-- The storage may change the page of a dirty frame.
pub dirty-Kept :
    (before after : ℕ → Bytes) (p : Pool) (i : ℕ)
    → Coherent before p.frames
    → (frame_at p.frames i).in_use ≡ true
    → (frame_at p.frames i).page.dirty ≡ true
    → ((j : ℕ) → j ≢ (frame_at p.frames i).page.id → after j ≡ before j)
    → Kept before after p p
unfolding Clean Unique
dirty-Kept before after p i c used dirty other =
    let here : holds (frame_at p.frames i).page.id (frame_at p.frames i) ≡ true = ground arith in
    record {
      capacity = refl;
      length = refl;
      size = refl;
      pins = λ k. refl;
      uses = λ k. refl;
      resembles = Resembles-self p.frames;
      shown =
          view-Resembles before after p.frames p.frames c.unique (Resembles-self p.frames)
            (λ id free. other id (λ e. let none = free i in let there = rw (sym e) at here in cc));
      coherent = record {
        unique = c.unique;
        filled = c.filled;
        clean = λ k used_k clean_k.
            let there : holds (frame_at p.frames k).page.id (frame_at p.frames k) ≡ true =
              ground arith in
            c.clean k used_k clean_k
            ∙ sym (
                other (frame_at p.frames k).page.id (λ e.
                  let both = subst (λ x. holds x (frame_at p.frames k) ≡ true) e there in
                  let same = c.unique i k (frame_at p.frames i).page.id here both in
                  let mark = ap (λ m. (frame_at p.frames m).page.dirty) same in cc));
      };
    }

-- The frame's dirty mark goes when the storage has its page.
abbrev pub cleaned : Frame → Frame
cleaned f = record f { page = record f.page { dirty = false } }

pub cleaned-Kept :
    (content : ℕ → Bytes) (p : Pool) (i : ℕ)
    → Coherent content p.frames
    → (frame_at p.frames i).in_use ≡ true
    → (frame_at p.frames i).page.bytes ≡ content (frame_at p.frames i).page.id
    → Kept content content p (record p { frames = set p.frames i (cleaned (frame_at p.frames i)) })
unfolding Clean Resembles
cleaned-Kept content p i c used stored =
    let f' = cleaned (frame_at p.frames i) in
    let at : (k : ℕ)
        → frame_at (set p.frames i f') k ≡ (if k == i then f' else frame_at p.frames k) =
      λ k. frame_at-set p.frames i k f' (used_inside p.frames i used) in
    let same : (k : ℕ) → (k == i) ≡ true → frame_at p.frames k ≡ frame_at p.frames i =
      λ k e. let eq : k ≡ i = ground arith in ap (frame_at p.frames) eq in
    let alike : Resembles p.frames (set p.frames i f') = λ k. elim (Bool-cases (k == i)) [
      | inl e ↦ rw (at k, e, same k e) (refl, λ u. (refl, refl))
      | inr e ↦ rw (at k, e) (refl, λ u. (refl, refl))
    ] in
    record {
      capacity = refl;
      length = length-set p.frames i f';
      size = count_if-set_same is_used p.frames i f' empty_frame refl;
      pins = λ k. elim (Bool-cases (k == i)) [
        | inl e ↦ rw (at k, e, same k e) refl
        | inr e ↦ rw (at k, e) refl
      ];
      uses = λ k. elim (Bool-cases (k == i)) [
        | inl e ↦ rw (at k, e, same k e) refl
        | inr e ↦ rw (at k, e) refl
      ];
      resembles = alike;
      shown =
          view-Resembles content content p.frames (set p.frames i f') c.unique alike
            (λ id free. refl);
      coherent = record {
        unique = Resembles-Unique p.frames (set p.frames i f') alike c.unique;
        filled = Resembles-Filled p.frames (set p.frames i f') alike c.filled;
        clean = λ k. elim (Bool-cases (k == i)) [
          | inl e ↦ rw (at k, e) (λ u d. stored)
          | inr e ↦ rw (at k, e) (c.clean k)
        ];
      };
    }
