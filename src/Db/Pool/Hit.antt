-- ===== src/Db/Pool/Hit.antt =====
-- What `Fetch` promises, and its branches that load no page: a failure and a resident page.
use nexus_db.Prelude.{
  ℕ, suc, ◌+◌, ◌≤◌, ◌<◌, ◌≡◌, refl, sym, ap, ◌∙◌, inl, inr, true, false, Option, none, some, ◌==◌,
  if◌then◌else◌, length, set, Bool-cases, length-set, arith,
}
use nexus_db.Prelude.Search.{count_if-set_same}
use nexus_db.Db.Status.{DbError, is_ok}
use nexus_db.Db.Page.{Bytes}
use nexus_db.Db.Pool.{
  Pool, empty_frame, frame_at, holds, is_used, size, pin, touch, find_frame, pin_count_of,
}
use nexus_db.Db.Pool.Frames.{
  frame_at-set, Clean, Coherent, Resembles, view, view-held, view-Resembles, Resembles-Unique,
  Resembles-Filled, holds-Resembles,
}
use nexus_db.Db.Pool.Kept.{Kept}
use nexus_db.Db.Pool.Stamps.{field-set, touch-Restamped}

-- The pool is coherent with the storage and has no more pages than its capacity allows.
pub record WellFormed (content : ℕ → Bytes) (p : Pool) : Type 0 where
  pub coherent : Coherent content p.frames
  pub fits : size p.frames ≤ p.capacity
  pub slots : p.capacity ≤ length p.frames

-- What `Fetch` of page `id` promises.
pub record Fetched (before after : ℕ → Bytes) (id : ℕ) (p p' : Pool) (code : DbError)
    (slot : Option ℕ) : Type 0 where
  pub well_formed : WellFormed after p'
  pub capacity : p'.capacity ≡ p.capacity
  pub shown : (j : ℕ) → view after p'.frames j ≡ view before p.frames j
  pub pinned :
      (k : ℕ)
      → (frame_at p.frames k).in_use ≡ true
      → 0 < (frame_at p.frames k).pin_count
      → ((frame_at p'.frames k).page ≡ (frame_at p.frames k).page)
        × ((frame_at p.frames k).pin_count ≤ (frame_at p'.frames k).pin_count)
  pub held :
      is_ok code ≡ true
      → (i : ℕ) × (slot ≡ some i)
        × (holds id (frame_at p'.frames i) ≡ true)
        × ((frame_at p'.frames i).page.bytes ≡ view before p.frames id)
        × ((frame_at p'.frames i).pin_count ≡ suc (pin_count_of id p.frames))
  pub empty : is_ok code ≡ false → slot ≡ none

-- A failure: nothing but the storage and dirty marks may have changed.
pub failed :
    (before after : ℕ → Bytes) (id : ℕ) (p p' : Pool) (code : DbError)
    → WellFormed before p
    → Kept before after p p'
    → ((k : ℕ) → 0 < (frame_at p.frames k).pin_count → frame_at p'.frames k ≡ frame_at p.frames k)
    → is_ok code ≡ false
    → Fetched before after id p p' code none
failed before after id p p' code w kept stay bad =
    let fits = w.fits in
    let slots = w.slots in
    let size_eq = kept.size in
    let cap_eq = kept.capacity in
    let len_eq = kept.length in
    record {
      well_formed = record { coherent = kept.coherent; fits = omega arith; slots = omega arith };
      capacity = kept.capacity;
      shown = kept.shown;
      pinned = λ k used_k pos. (
        ap (λ f. f.page) (stay k pos),
        let e = ap (λ f. f.pin_count) (stay k pos) in omega arith,
      );
      held = λ ok. cc;
      empty = λ b. refl;
    }

-- Frames with the same pages show the same, and are well formed as before, whatever their pins and
-- stamps.
pub same_pages :
    (content : ℕ → Bytes) (p p' : Pool)
    → WellFormed content p
    → ((k : ℕ) → (frame_at p'.frames k).page ≡ (frame_at p.frames k).page)
    → ((k : ℕ) → (frame_at p'.frames k).in_use ≡ (frame_at p.frames k).in_use)
    → length p'.frames ≡ length p.frames
    → size p'.frames ≡ size p.frames
    → p'.capacity ≡ p.capacity
    → WellFormed content p'
      × Resembles p.frames p'.frames
      × ((id : ℕ) → view content p'.frames id ≡ view content p.frames id)
unfolding Resembles Clean
same_pages content p p' w pages used count sizes room =
    let alike : Resembles p.frames p'.frames =
      λ k. (used k, λ u. (ap (λ x. x.id) (pages k), ap (λ x. x.bytes) (pages k))) in
    let fits = w.fits in
    let slots = w.slots in
    (
      record {
        coherent = record {
          unique = Resembles-Unique p.frames p'.frames alike w.coherent.unique;
          filled = Resembles-Filled p.frames p'.frames alike w.coherent.filled;
          clean = λ k. rw (pages k, used k) (w.coherent.clean k);
        };
        fits = omega arith;
        slots = omega arith;
      },
      alike,
      view-Resembles content content p.frames p'.frames w.coherent.unique alike (λ id free. refl),
    )

-- A page that is resident gets a pin and the newest stamp.
pub hit-Fetched :
    (content : ℕ → Bytes) (id i : ℕ) (p : Pool)
    → WellFormed content p
    → find_frame id p.frames ≡ some i
    → i < length p.frames
    → holds id (frame_at p.frames i) ≡ true
    → Fetched content content id p (touch i (pin i p)) DbError.ok (some i)
unfolding pin pin_count_of
hit-Fetched content id i p w found lt h =
    let f = record (frame_at p.frames i) { pin_count = (frame_at p.frames i).pin_count + 1 } in
    let p1 = record p { frames = set p.frames i f } in
    let p2 = touch i p1 in
    let (r, room) = touch-Restamped i p1 in
    let pages : (k : ℕ) → (frame_at p2.frames k).page ≡ (frame_at p.frames k).page =
      λ k. r.page k ∙ field-set (λ x. x.page) p.frames i k f refl in
    let pins : (k : ℕ)
        → (frame_at p2.frames k).pin_count ≡ (
            if k == i
            then (frame_at p.frames i).pin_count + 1
            else (frame_at p.frames k).pin_count) =
      λ k. r.pins k ∙ ap (λ x. x.pin_count) (frame_at-set p.frames i k f lt) ∙ ground arith in
    let (well, alike, shown) =
      same_pages content p p2 w pages
        (λ k. r.used k ∙ field-set (λ x. x.in_use) p.frames i k f refl)
        (r.count ∙ length-set p.frames i f)
        (r.size ∙ count_if-set_same is_used p.frames i f empty_frame refl) room in
    let self : (i == i) ≡ true = ground arith in
    record {
      well_formed = well;
      capacity = room;
      shown = shown;
      pinned = λ k used_k pos. (
        pages k,
        let e = pins k in
            elim (Bool-cases (k == i)) [
              | inl same ↦
                  let eq : k ≡ i = ground arith in
                  let q = ap (λ m. (frame_at p.frames m).pin_count) eq in ground arith
              | inr other ↦ ground arith
            ],
      );
      held = λ ok. (
        i,
        refl,
        holds-Resembles p.frames p2.frames id i alike ∙ h,
        ap (λ x. x.bytes) (pages i) ∙ sym (view-held content p.frames id i w.coherent.unique h),
        pins i ∙ rw (self, found, pin_count_of) (omega arith),
      );
      empty = λ bad. cc;
    }
