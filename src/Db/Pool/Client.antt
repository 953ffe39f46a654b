-- ===== src/Db/Pool/Client.antt =====
-- A new pool, and what a client does through a handle.
use nexus_db.Prelude.{
  ℕ, ◌-◌, ◌≡◌, refl, sym, ap, ◌∙◌, inl, inr, true, false, [], ltb, leb, ◌==◌, if◌then◌else◌, length,
  set, replicate, Bool-cases, length-set, length-replicate, arith,
}
use nexus_db.Prelude.Search.{count_if-set_same}
use nexus_db.Db.Page.{Bytes, Whole}
use nexus_db.Db.Pool.{Frame, Pool, empty_frame, frame_at, holds, is_used, size, modify, unpin_frame}
use nexus_db.Db.Pool.Frames.{
  Filled, frame_at-set, held_cases, holds-used, used_inside, Unique, Clean, view, view-held,
  view-free,
}
use nexus_db.Db.Pool.Release.{frame_at-append, size-append}
use nexus_db.Db.Pool.Hit.{WellFormed, same_pages}
use nexus_db.Db.Pool.Stamps.{field-set}

-- The pool that `Create` makes.
pub create-WellFormed :
    (content : ℕ → Bytes) (n : ℕ)
    → WellFormed content (record { capacity = n; frames = replicate n empty_frame; clock = 0 })
unfolding Unique Clean Filled
create-WellFormed content n =
    let none = frame_at-append [] n in
    let count = size-append [] n in
    let slots = length-replicate n empty_frame in
    record {
      coherent = record {
        unique = λ i k id h h'. let wrong = sym (ap (holds id) (none i)) ∙ h in cc;
        clean = λ i used clean. let wrong = sym (ap (λ f. f.in_use) (none i)) ∙ used in cc;
        filled = λ i used. let wrong = sym (ap (λ f. f.in_use) (none i)) ∙ used in cc;
      };
      fits = omega arith;
      slots = omega arith;
    }

-- The frame that a client wrote bytes to.
abbrev overwritten : Pool → ℕ → Bytes → Frame
overwritten p i bytes = record (frame_at p.frames i) {
  page = record (frame_at p.frames i).page { bytes = bytes; dirty = true };
}

module _ (content : ℕ → Bytes) (p : Pool) (i : ℕ) (bytes : Bytes) (w : WellFormed content p)
    (used : (frame_at p.frames i).in_use ≡ true) where
  at-overwritten :
      (k : ℕ)
      → frame_at (set p.frames i (overwritten p i bytes)) k
        ≡ (if k == i then overwritten p i bytes else frame_at p.frames k)
  at-overwritten k = frame_at-set p.frames i k (overwritten p i bytes) (used_inside p.frames i used)

  holds-overwritten :
      (id k : ℕ)
      → holds id (frame_at (set p.frames i (overwritten p i bytes)) k)
        ≡ holds id (frame_at p.frames k)
  holds-overwritten id k =
      let ids = field-set (λ x. x.page.id) p.frames i k (overwritten p i bytes) refl in
      let uses = field-set (λ x. x.in_use) p.frames i k (overwritten p i bytes) refl in
      rw (ids, uses) refl

  Unique-overwritten : Unique (set p.frames i (overwritten p i bytes))
  unfolding Unique
  Unique-overwritten a b id ha hb =
      w.coherent.unique a b id (sym (holds-overwritten id a) ∙ ha)
        (sym (holds-overwritten id b) ∙ hb)

  -- Another frame than the one with the bytes has another page.
  elsewhere :
      (id k : ℕ)
      → holds id (frame_at p.frames k) ≡ true
      → (k == i) ≡ false
      → ((frame_at p.frames i).page.id == id) ≡ false
  unfolding Unique
  elsewhere id k h x = elim (Bool-cases ((frame_at p.frames i).page.id == id)) [
    | inl y ↦
        let own : holds id (frame_at p.frames i) ≡ true = rw used y in
        let same = w.coherent.unique i k id own h in absurd (ground arith)
    | inr y ↦ y
  ]

  view-overwritten :
      (id : ℕ)
      → view content (set p.frames i (overwritten p i bytes)) id
        ≡ (if (frame_at p.frames i).page.id == id then bytes else view content p.frames id)
  view-overwritten id =
      let fs = set p.frames i (overwritten p i bytes) in
      elim (held_cases id p.frames) [
        | inr (e, free) ↦
            let other : ((frame_at p.frames i).page.id == id) ≡ false =
              let h = free i in ground arith in
            view-free content fs id (λ k. holds-overwritten id k ∙ free k)
            ∙ sym (view-free content p.frames id free)
            ∙ rw other refl
        | inl (k, e, lt, h) ↦
            let shown = view-held content fs id k Unique-overwritten (holds-overwritten id k ∙ h) in
            elim (Bool-cases (k == i)) [
              | inl x ↦
                  let eq : k ≡ i = ground arith in
                  let own : (frame_at p.frames i).page.id ≡ id =
                    ap (λ m. (frame_at p.frames m).page.id) (sym eq)
                    ∙ (holds-used id (frame_at p.frames k) h).1 in
                  let self : ((frame_at p.frames i).page.id == id) ≡ true = ground arith in
                  let here : frame_at fs k ≡ overwritten p i bytes = at-overwritten k ∙ rw x refl in
                  shown ∙ ap (λ y. y.page.bytes) here ∙ rw self refl
              | inr x ↦
                  let here : frame_at fs k ≡ frame_at p.frames k = at-overwritten k ∙ rw x refl in
                  let other = elsewhere id k h x in
                  shown
                  ∙ ap (λ y. y.page.bytes) here
                  ∙ sym (view-held content p.frames id k w.coherent.unique h)
                  ∙ rw other refl
            ]
      ]

-- A client that writes the bytes of a page through a handle and marks its page dirty changes what
-- readers see of that page and of no other, and the pool stays well formed.
pub modify-Shown :
    (content : ℕ → Bytes) (p : Pool) (i : ℕ) (bytes : Bytes)
    → WellFormed content p
    → (frame_at p.frames i).in_use ≡ true
    → Whole bytes
    → WellFormed content (modify i bytes p)
      × ((id : ℕ)
          → view content (modify i bytes p).frames id
            ≡ (if (frame_at p.frames i).page.id == id then bytes else view content p.frames id))
unfolding modify Clean Filled
modify-Shown content p i bytes w used whole =
    let f = overwritten p i bytes in
    let fits = w.fits in
    let slots = w.slots in
    let sizes : size (set p.frames i f) ≡ size p.frames =
      count_if-set_same is_used p.frames i f empty_frame refl in
    let count : length (set p.frames i f) ≡ length p.frames = length-set p.frames i f in
    (
      record {
        coherent = record {
          unique = Unique-overwritten content p i bytes w used;
          clean = λ k. elim (Bool-cases (k == i)) [
            | inl e ↦ rw (at-overwritten content p i bytes w used k, e) (λ u d. cc)
            | inr e ↦ rw (at-overwritten content p i bytes w used k, e) (w.coherent.clean k)
          ];
          filled = λ k. elim (Bool-cases (k == i)) [
            | inl e ↦ rw (at-overwritten content p i bytes w used k, e) (λ u. whole)
            | inr e ↦ rw (at-overwritten content p i bytes w used k, e) (w.coherent.filled k)
          ];
        };
        fits = omega arith;
        slots = omega arith;
      },
      view-overwritten content p i bytes w used,
    )

-- A handle that lets go of its pin changes no page.
pub unpin_frame-Shown :
    (content : ℕ → Bytes) (p : Pool) (i : ℕ)
    → WellFormed content p
    → WellFormed content (unpin_frame i p)
      × ((id : ℕ) → view content (unpin_frame i p).frames id ≡ view content p.frames id)
unfolding unpin_frame
unpin_frame-Shown content p i w =
    let f = record (frame_at p.frames i) { pin_count = (frame_at p.frames i).pin_count - 1 } in
    let (kept, alike, shown) =
      same_pages content p (record p { frames = set p.frames i f }) w
        (λ k. field-set (λ x. x.page) p.frames i k f refl)
        (λ k. field-set (λ x. x.in_use) p.frames i k f refl) (length-set p.frames i f)
        (count_if-set_same is_used p.frames i f empty_frame refl) refl in
    elim (Bool-cases (leb (length p.frames) i)) [
      | inl e ↦ rw e (w, λ id. refl)
      | inr e ↦ elim (Bool-cases (ltb 0 (frame_at p.frames i).pin_count)) [
        | inl e2 ↦ rw (e, e2) (kept, shown)
        | inr e2 ↦ rw (e, e2) (w, λ id. refl)
      ]
    ]
