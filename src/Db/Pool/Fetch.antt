-- ===== src/Db/Pool/Fetch.antt =====
-- `Fetch`: the handle pins a frame with the page that a reader of the pool and the storage sees,
-- and the other pages, and those that handles pin, are what they were.
use nexus_db.Prelude.{
  ℕ, ◌≤◌, ◌<◌, ◌≡◌, refl, sym, ap, ◌∙◌, subst, ◌⊎◌, inl, inr, true, false, Option, none, some, ◌==◌,
  length, Bool-cases, arith,
}
use nexus_db.Db.Status.{DbError, is_ok}
use nexus_db.Db.Page.{Bytes, Page, invalid_id, Whole}
use nexus_db.Db.Disk.{Disk, Honest}
use nexus_db.Db.Pool.{
  Pool, frame_at, holds, size, install, find_frame, pin_count_of, acquire_frame, load_into, load,
  fetch,
}
use nexus_db.Db.Pool.Frames.{held_cases, used_inside, view-free, holds-Resembles}
use nexus_db.Db.Pool.Kept.{in_use-Kept, Kept, Kept-self, Kept-trans, same-Kept}
use nexus_db.Db.Pool.Victim.{Least, Acquired, PinnedStay, acquire_frame-Acquired}
use nexus_db.Db.Pool.Install.{install-Installed, install-Coherent, view-install}
use nexus_db.Db.Pool.Hit.{WellFormed, Fetched, failed, hit-Fetched}

-- What the storage has of a page that no frame holds stays to be read while the pool writes back.
absent-Kept :
    (before after : ℕ → Bytes) (id : ℕ) (p p' : Pool)
    → Kept before after p p'
    → ((k : ℕ) → holds id (frame_at p.frames k) ≡ false)
    → ((k : ℕ) → holds id (frame_at p'.frames k) ≡ false) × (after id ≡ before id)
absent-Kept before after id p p' kept free =
    let free' : (k : ℕ) → holds id (frame_at p'.frames k) ≡ false =
      λ k. holds-Resembles p.frames p'.frames id k kept.resembles ∙ free k in
    (
      free',
      sym (view-free after p'.frames id free') ∙ kept.shown id ∙ view-free before p.frames id free,
    )

-- The frame that a page goes into has no handle, and the others stay.
install-pinned :
    (page : Page) (i : ℕ) (p p1 : Pool)
    → ((k : ℕ) → 0 < (frame_at p.frames k).pin_count → frame_at p1.frames k ≡ frame_at p.frames k)
    → i < length p1.frames
    → ((frame_at p.frames i).in_use ≡ true → (frame_at p.frames i).pin_count ≡ 0)
    → (k : ℕ) → (frame_at p.frames k).in_use ≡ true
    → 0 < (frame_at p.frames k).pin_count
    → ((frame_at (install page i p1).frames k).page ≡ (frame_at p.frames k).page)
      × ((frame_at p.frames k).pin_count ≤ (frame_at (install page i p1).frames k).pin_count)
install-pinned page i p p1 stay lt unpinned k used_k pos =
    let q = install-Installed page i p1 lt in
    let p2 = install page i p1 in
    elim (Bool-cases (k == i)) [
      | inl e ↦
          let eq : k ≡ i = ground arith in
          let none = unpinned (ap (λ m. (frame_at p.frames m).in_use) (sym eq) ∙ used_k) in
          let pins = ap (λ m. (frame_at p.frames m).pin_count) eq in absurd (omega arith)
      | inr e ↦
          let pages : (frame_at p2.frames k).page ≡ (frame_at p1.frames k).page =
            q.pages k ∙ rw e refl in
          let pins : (frame_at p2.frames k).pin_count ≡ (frame_at p1.frames k).pin_count =
            q.pins k ∙ rw e refl in
          let pins1 = ap (λ f. f.pin_count) (stay k pos) in
          (pages ∙ ap (λ f. f.page) (stay k pos), omega arith)
    ]

-- A page that was read goes into the frame that `AcquireFrame` gives.
installed-Fetched :
    (before after : ℕ → Bytes) (page : Page) (i : ℕ) (p p1 : Pool)
    → WellFormed before p
    → Kept before after p p1
    → ((k : ℕ) → 0 < (frame_at p.frames k).pin_count → frame_at p1.frames k ≡ frame_at p.frames k)
    → ((k : ℕ) → holds page.id (frame_at p.frames k) ≡ false)
    → find_frame page.id p.frames ≡ none
    → page.bytes ≡ before page.id
    → Whole page.bytes
    → i < length p1.frames
    → ((frame_at p1.frames i).in_use ≡ true → (frame_at p1.frames i).page.dirty ≡ false)
    → ((frame_at p.frames i).in_use ≡ true → (frame_at p.frames i).pin_count ≡ 0)
    → ((frame_at p1.frames i).in_use ≡ true) ⊎ (size p1.frames < p1.capacity)
    → Fetched before after page.id p (install page i p1) DbError.ok (some i)
unfolding pin_count_of
installed-Fetched before after page i p p1 w kept stay free found stored whole lt leaves unpinned
      room =
    let q = install-Installed page i p1 lt in
    let (free1, same) = absent-Kept before after page.id p p1 kept free in
    let stored1 : page.bytes ≡ after page.id = stored ∙ sym same in
    let p2 = install page i p1 in
    let coherent = install-Coherent after page i p1 p2 kept.coherent q free1 stored1 leaves whole in
    let shown = view-install after page i p1 p2 kept.coherent q free1 stored1 leaves in
    let self : (i == i) ≡ true = ground arith in
    let own : (page.id == page.id) ≡ true = ground arith in
    let here : (frame_at p2.frames i).page ≡ page = q.pages i ∙ rw self refl in
    let fits = w.fits in
    let slots = w.slots in
    let size_eq = kept.size in
    let cap_eq = kept.capacity in
    let len_eq = kept.length in
    let cap2 = q.capacity in
    let len2 = q.count in
    let le = q.size_le in
    let size_same = q.size_same in
    record {
      well_formed = record {
        coherent = coherent;
        fits = elim room [
          | inl used ↦ let e = size_same used in omega arith
          | inr less ↦ omega arith
        ];
        slots = omega arith;
      };
      capacity = q.capacity ∙ kept.capacity;
      shown = λ j. shown j ∙ kept.shown j;
      pinned = install-pinned page i p p1 stay lt unpinned;
      held = λ ok. (
        i,
        refl,
        rw (q.used i, q.pages i, self) own,
        ap (λ x. x.bytes) here ∙ stored ∙ sym (view-free before p.frames page.id free),
        q.pins i ∙ rw (self, found, pin_count_of) refl,
      );
      empty = λ bad. cc;
    }

module _ (disk : Disk) (honest : Honest disk) where
  load_into-Fetched :
      (before after : ℕ → Bytes) (page : Page) (code : DbError) (slot : Option ℕ) (p p1 : Pool)
      (w : disk.World)
      → WellFormed before p
      → Kept before after p p1
      → PinnedStay disk honest p p1
      → Acquired p p1 code slot
      → ((k : ℕ) → holds page.id (frame_at p.frames k) ≡ false)
      → find_frame page.id p.frames ≡ none
      → page.bytes ≡ before page.id
      → Whole page.bytes
      → let (code', slot', p', w') = load_into disk page code slot p1 w in
        Fetched before after page.id p p' code' slot' × (w' ≡ w)
  unfolding load_into PinnedStay Least
  load_into-Fetched before after page _ _ p p1 w wf kept stay
        (Acquired.free_frame i lt is_free room) free found stored whole =
      (
        installed-Fetched before after page i p p1 wf kept stay free found stored whole lt (λ u. cc)
            (λ u. let e = in_use-Kept before after p p1 kept i in cc) (inr room),
        refl,
      )
  load_into-Fetched before after page _ _ p p1 w wf kept stay (Acquired.evicted i least used clean)
        free found stored whole =
      (
        installed-Fetched before after page i p p1 wf kept stay free found stored whole
            (used_inside p1.frames i used) (λ u. clean) (λ u. let go = least.0 in ground arith)
            (inl used),
        refl,
      )
  load_into-Fetched before after page _ _ p p1 w wf kept stay (Acquired.write_failed code bad) free
        found stored whole =
      (failed before after page.id p p1 code wf kept stay bad, refl)
  load_into-Fetched before after page _ _ p p1 w wf kept stay (Acquired.all_pinned all) free found
        stored whole =
      (failed before after page.id p p1 DbError.buffer_full wf kept stay refl, refl)

  load-Fetched :
      (page : Page) (p : Pool) (w w1 : disk.World)
      → WellFormed (honest.content w) p
      → Kept (honest.content w) (honest.content w1) p p
      → ((k : ℕ) → holds page.id (frame_at p.frames k) ≡ false)
      → find_frame page.id p.frames ≡ none
      → page.bytes ≡ honest.content w page.id
      → let (code, slot, p', w') = load disk page p w1 in
        Fetched (honest.content w) (honest.content w') page.id p p' code slot
  unfolding load
  load-Fetched page p w w1 wf seen free found stored =
      let r = acquire_frame disk p w1 in
      let (kept, acq, stay) = acquire_frame-Acquired disk honest p w1 seen.coherent in
      let all =
        Kept-trans (honest.content w) (honest.content w1) (honest.content r.3) p p r.2 seen kept in
      let (fetched, same) =
        load_into-Fetched (honest.content w) (honest.content r.3) page r.0 r.1 p r.2 r.3 wf all stay
          acq free found stored (subst Whole (sym stored) (honest.whole w page.id)) in
      let done = load_into disk page r.0 r.1 r.2 r.3 in
      subst (λ v. Fetched (honest.content w) (honest.content v) page.id p done.2 done.0 done.1)
        (sym same) fetched

  -- `Fetch` of a coherent pool within its capacity over an honest storage. It keeps the pool so,
  -- and readers see the same pages. With kOk the handle has a frame with the page that readers see,
  -- one pin more; else it is empty. The pages that handles pin stay in their frames.
  pub fetch-Fetched :
      (id : ℕ) (p : Pool) (w : disk.World)
      → WellFormed (honest.content w) p
      → let (code, slot, p', w') = fetch disk id p w in
        Fetched (honest.content w) (honest.content w') id p p' code slot
  unfolding fetch load PinnedStay
  fetch-Fetched id p w wf =
      let page = (disk.read_page id w).1 in
      let w1 = (disk.read_page id w).2 in
      let seen =
        same-Kept (honest.content w) (honest.content w1) p wf.coherent (honest.read_only id w) in
      elim (Bool-cases (id == invalid_id)) [
        | inl e ↦ rw e (
            failed (honest.content w) (honest.content w) id p p DbError.invalid_argument wf
              (Kept-self (honest.content w) p wf.coherent) (λ k pos. refl) refl)
        | inr e ↦ elim (held_cases id p.frames) [
          | inl (i, found, lt, h) ↦
              rw (e, found) (hit-Fetched (honest.content w) id i p wf found lt h)
          | inr (found, free) ↦ elim (Bool-cases (is_ok (disk.read_page id w).0)) [
            | inr bad ↦
                rw (e, found, bad)
                  (failed (honest.content w) (honest.content w1) id p p (disk.read_page id w).0 wf
                    seen (λ k pos. refl) bad)
            | inl ok ↦
                let (named, bytes) = honest.read_ok id w ok in
                let done = load disk page p w1 in
                let goal : ℕ → Type 0 = λ j.
                  Fetched (honest.content w) (honest.content done.3) j p done.2 done.0 done.1 in
                rw (e, found, ok)
                  (subst goal named (
                    load-Fetched page p w w1 wf seen
                      (subst (λ j. (k : ℕ) → holds j (frame_at p.frames k) ≡ false) (sym named)
                        free)
                      (subst (λ j. find_frame j p.frames ≡ none) (sym named) found)
                      (bytes ∙ ap (honest.content w) (sym named))))
          ]
        ]
      ]
