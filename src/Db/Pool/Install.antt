-- ===== src/Db/Pool/Install.antt =====
-- The writes of `Fetch`: a page that is loaded into a frame shows what the storage has, and the
-- page that was there before was written back.
use nexus_db.Prelude.{
  ℕ, suc, ◌≤◌, ◌<◌, ◌≡◌, refl, sym, ap, ◌∙◌, subst, inl, inr, true, false, ◌==◌, if◌then◌else◌,
  length, set, Bool-cases, length-set, arith,
}
use nexus_db.Prelude.Search.{count_if-set_same, count_if-set_le}
use nexus_db.Db.Page.{Bytes, Page, Whole}
use nexus_db.Db.Pool.{Pool, empty_frame, frame_at, holds, is_used, size, next_timestamp, install}
use nexus_db.Db.Pool.Frames.{
  frame_at-set, held_cases, holds-used, Unique, Clean, Filled, Coherent, view, view-held, view-free,
}
use nexus_db.Db.Pool.Stamps.{field-set, next_timestamp-Restamped}

-- Frame `i` has the page and one pin, and the others are as they were but for their stamps.
pub record Installed (page : Page) (i : ℕ) (p p' : Pool) : Type 0 where
  pub pages :
      (k : ℕ) → (frame_at p'.frames k).page ≡ (if k == i then page else (frame_at p.frames k).page)
  pub pins :
      (k : ℕ)
      → (frame_at p'.frames k).pin_count ≡ (if k == i then 1 else (frame_at p.frames k).pin_count)
  pub used :
      (k : ℕ)
      → (frame_at p'.frames k).in_use ≡ (if k == i then true else (frame_at p.frames k).in_use)
  pub capacity : p'.capacity ≡ p.capacity
  pub count : length p'.frames ≡ length p.frames
  pub size_le : size p'.frames ≤ suc (size p.frames)
  pub size_same : (frame_at p.frames i).in_use ≡ true → size p'.frames ≡ size p.frames

pub install-Installed :
    (page : Page) (i : ℕ) (p : Pool) → i < length p.frames → Installed page i p (install page i p)
unfolding install
install-Installed page i p lt =
    let loaded = record (frame_at p.frames i) { page = page; pin_count = 1 } in
    let one = record p { frames = set p.frames i loaded } in
    let stamp = (next_timestamp one).0 in
    let two = (next_timestamp one).1 in
    let (r, room) = next_timestamp-Restamped one in
    let ready = record (frame_at two.frames i) { last_used = stamp; in_use = true } in
    let at_one : (k : ℕ)
        → frame_at one.frames k ≡ (if k == i then loaded else frame_at p.frames k) =
      λ k. frame_at-set p.frames i k loaded lt in
    let lt2 : i < length two.frames =
      let n = r.count in let m = length-set p.frames i loaded in omega arith in
    let size_1 : size one.frames ≡ size p.frames =
      count_if-set_same is_used p.frames i loaded empty_frame refl in
    record {
      pages = λ k.
          field-set (λ f. f.page) two.frames i k ready refl
          ∙ r.page k
          ∙ ap (λ f. f.page) (at_one k)
          ∙ ground arith;
      pins = λ k.
          field-set (λ f. f.pin_count) two.frames i k ready refl
          ∙ r.pins k
          ∙ ap (λ f. f.pin_count) (at_one k)
          ∙ ground arith;
      used = λ k. elim (Bool-cases (k == i)) [
        | inl e ↦ ap (λ f. f.in_use) (frame_at-set two.frames i k ready lt2) ∙ rw e refl
        | inr e ↦
            ap (λ f. f.in_use) (frame_at-set two.frames i k ready lt2)
            ∙ rw e (r.used k ∙ ap (λ f. f.in_use) (at_one k) ∙ rw e refl)
      ];
      capacity = room;
      count = length-set two.frames i ready ∙ r.count ∙ length-set p.frames i loaded;
      size_le =
          let le = count_if-set_le is_used two.frames i ready in let s = r.size in omega arith;
      size_same = λ u.
          let was : (frame_at two.frames i).in_use ≡ true =
            r.used i ∙ ap (λ f. f.in_use) (at_one i) ∙ ground arith in
          count_if-set_same is_used two.frames i ready empty_frame was ∙ r.size ∙ size_1;
    }

module _ (content : ℕ → Bytes) (page : Page) (i : ℕ) (p p' : Pool) (c : Coherent content p.frames)
    (q : Installed page i p p') (absent : (k : ℕ) → holds page.id (frame_at p.frames k) ≡ false)
    (stored : page.bytes ≡ content page.id)
    (leaves : (frame_at p.frames i).in_use ≡ true → (frame_at p.frames i).page.dirty ≡ false) where
  pub holds-install :
      (id k : ℕ)
      → holds id (frame_at p'.frames k)
        ≡ (if k == i then page.id == id else holds id (frame_at p.frames k))
  holds-install id k = elim (Bool-cases (k == i)) [
    | inl e ↦ rw (q.used k, q.pages k, e) refl
    | inr e ↦ rw (q.used k, q.pages k, e) refl
  ]

  install-Unique : Unique p'.frames
  unfolding Unique
  install-Unique a b id ha hb =
      let ea = holds-install id a in
      let eb = holds-install id b in
      let at_a = absent a in
      let at_b = absent b in
      elim (Bool-cases (a == i)) [
        | inl x ↦ elim (Bool-cases (b == i)) [
          | inl y ↦ ground arith
          | inr y ↦
              let same : page.id ≡ id = ground arith in
              let there = rw (sym same) at hb in absurd (ground arith)
        ]
        | inr x ↦ elim (Bool-cases (b == i)) [
          | inl y ↦ absurd (ground arith)
          | inr y ↦ c.unique a b id (sym (rw (ea, x) refl) ∙ ha) (sym (rw (eb, y) refl) ∙ hb)
        ]
      ]

  install-Clean : Clean content p'.frames
  unfolding Clean
  install-Clean k = elim (Bool-cases (k == i)) [
    | inl e ↦ rw (q.pages k, e) (λ u d. stored)
    | inr e ↦ rw (q.pages k, q.used k, e) (c.clean k)
  ]

  install-Filled : Whole page.bytes → Filled p'.frames
  unfolding Filled
  install-Filled whole k = elim (Bool-cases (k == i)) [
    | inl e ↦ rw (q.pages k, e) (λ u. whole)
    | inr e ↦ rw (q.pages k, q.used k, e) (c.filled k)
  ]

  pub install-Coherent : Whole page.bytes → Coherent content p'.frames
  install-Coherent whole = record {
    unique = install-Unique;
    clean = install-Clean;
    filled = install-Filled whole;
  }

  view-loaded : view content p'.frames page.id ≡ view content p.frames page.id
  view-loaded =
      let self : (i == i) ≡ true = ground arith in
      let own : (page.id == page.id) ≡ true = ground arith in
      let held : holds page.id (frame_at p'.frames i) ≡ true =
        holds-install page.id i ∙ rw (self, own) refl in
      let here : (frame_at p'.frames i).page ≡ page = q.pages i ∙ rw self refl in
      view-held content p'.frames page.id i install-Unique held
      ∙ ap (λ x. x.bytes) here
      ∙ stored
      ∙ sym (view-free content p.frames page.id absent)

  -- The page that made room is read from the storage again.
  view-replaced :
      (id : ℕ)
      → (page.id == id) ≡ false
      → holds id (frame_at p.frames i) ≡ true
      → view content p'.frames id ≡ view content p.frames id
  unfolding Clean Unique
  view-replaced id ne h =
      let (used, named) = holds-used id (frame_at p.frames i) h in
      let gone : (k : ℕ) → holds id (frame_at p'.frames k) ≡ false = λ k.
        elim (Bool-cases (k == i)) [
          | inl e ↦ holds-install id k ∙ rw (e, ne) refl
          | inr e ↦ elim (Bool-cases (holds id (frame_at p.frames k))) [
            | inl h' ↦ let same = c.unique k i id h' h in absurd (ground arith)
            | inr h' ↦ holds-install id k ∙ rw (e, h') refl
          ]
        ] in
      view-free content p'.frames id gone
      ∙ sym (
          view-held content p.frames id i c.unique h
          ∙ c.clean i used (leaves used)
          ∙ ap content named)

  view-other :
      (id k : ℕ)
      → (k == i) ≡ false
      → holds id (frame_at p.frames k) ≡ true
      → view content p'.frames id ≡ view content p.frames id
  view-other id k ne h =
      let here : (frame_at p'.frames k).page ≡ (frame_at p.frames k).page =
        q.pages k ∙ rw ne refl in
      view-held content p'.frames id k install-Unique (holds-install id k ∙ rw ne h)
      ∙ ap (λ x. x.bytes) here
      ∙ sym (view-held content p.frames id k c.unique h)

  pub view-install : (id : ℕ) → view content p'.frames id ≡ view content p.frames id
  view-install id = elim (Bool-cases (page.id == id)) [
    | inl e ↦
        let eq : page.id ≡ id = ground arith in
        subst (λ j. view content p'.frames j ≡ view content p.frames j) eq view-loaded
    | inr ne ↦ elim (held_cases id p.frames) [
      | inl (k, e, lt, h) ↦ elim (Bool-cases (k == i)) [
        | inl same ↦
            let eq : k ≡ i = ground arith in
            view-replaced id ne (subst (λ m. holds id (frame_at p.frames m) ≡ true) eq h)
        | inr other ↦ view-other id k other h
      ]
      | inr (e, free) ↦
          view-free content p'.frames id (λ k. elim (Bool-cases (k == i)) [
            | inl x ↦ holds-install id k ∙ rw (x, ne) refl
            | inr x ↦ holds-install id k ∙ rw (x, free k) refl
          ])
          ∙ sym (view-free content p.frames id free)
    ]
  ]
