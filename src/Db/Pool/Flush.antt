-- ===== src/Db/Pool/Flush.antt =====
-- `FlushFrame` and the loops over it: a page leaves the pool only through the log and the storage,
-- and no reader sees a difference.
use nexus_db.Prelude.{
  ℕ, zero, suc, ◌+◌, ◌≤◌, ◌<◌, ◌≡◌, ◌≢◌, refl, sym, ap, ◌∙◌, subst, inl, inr, true, false, not,
  ◌||◌, List, [], ◌∷◌, ◌==◌, if◌then◌else◌, length, set, Bool-cases, arith,
}
use nexus_db.Prelude.Search.{get_or-set_self, get_or-set_ne}
use nexus_db.Db.Status.{DbError, is_ok}
use nexus_db.Db.Disk.{Disk, Honest}
use nexus_db.Db.Pool.{
  Pool, empty_frame, frame_at, flush_frame, flush_from, flush_all, flush_victims,
}
use nexus_db.Db.Pool.Frames.{Filled, used_inside, Clean, Coherent}
use nexus_db.Db.Pool.Kept.{Kept, Kept-self, Kept-trans, dirty-Kept, cleaned, cleaned-Kept}

both_ok :
    (a b : DbError) → is_ok (if is_ok a then b else a) ≡ true → (is_ok a ≡ true) × (is_ok b ≡ true)
both_ok a b h = elim (Bool-cases (is_ok a)) [
  | inl e ↦ (e, rw e at h)
  | inr e ↦ let h' = rw e at h in cc
]

module _ (disk : Disk) (honest : Honest disk) where
  -- `FlushFrame` on every branch. A frame that it answers kOk for is clean.
  pub flush_frame-Kept :
      (i : ℕ) (p : Pool) (w : disk.World)
      → Coherent (honest.content w) p.frames
      → let (code, p', w') = flush_frame disk i p w in
        Kept (honest.content w) (honest.content w') p p'
        × (is_ok code ≡ true
            → (frame_at p'.frames i).in_use ≡ true
            → (frame_at p'.frames i).page.dirty ≡ false)
        × ((k : ℕ) → k ≢ i → frame_at p'.frames k ≡ frame_at p.frames k)
  unfolding flush_frame
  flush_frame-Kept i p w c =
      let page = (frame_at p.frames i).page in
      let w1 = (disk.before_page_write page w).1 in
      let w2 = (disk.write_page page w1).1 in
      elim (Bool-cases (not (frame_at p.frames i).in_use || not page.dirty)) [
        | inl e ↦ rw e (Kept-self (honest.content w) p c, (λ ok used. ground arith), λ k ne. refl)
        | inr e ↦
            let used : (frame_at p.frames i).in_use ≡ true = ground arith in
            let dirty : page.dirty ≡ true = ground arith in
            let logged =
              dirty-Kept (honest.content w) (honest.content w1) p i c used dirty
                (λ j ne. honest.log_only page w j) in
            let written =
              dirty-Kept (honest.content w) (honest.content w2) p i c used dirty
                (λ j ne. honest.write_other page w1 j ne ∙ honest.log_only page w j) in
            elim (Bool-cases (is_ok (disk.before_page_write page w).0)) [
              | inr bad ↦ rw (e, bad) (logged, (λ ok u. cc), λ k ne. refl)
              | inl ok1 ↦ elim (Bool-cases (is_ok (disk.write_page page w1).0)) [
                | inr bad ↦ rw (e, ok1, bad) (written, (λ ok u. cc), λ k ne. refl)
                | inl ok2 ↦
                    let stored =
                      sym (honest.write_ok page w1 (unfold Filled in c.filled i used) ok2) in
                    let done = cleaned-Kept (honest.content w2) p i written.coherent used stored in
                    let f' = cleaned (frame_at p.frames i) in
                    let own =
                      get_or-set_self p.frames i f' empty_frame (used_inside p.frames i used) in
                    rw (e, ok1, ok2)
                      (
                        Kept-trans (honest.content w) (honest.content w2) (honest.content w2) p p
                            (record p { frames = set p.frames i f' }) written done,
                        (λ ok u. rw own refl),
                        λ k ne. get_or-set_ne p.frames i k f' empty_frame (λ x. ne (sym x)),
                      )
              ]
            ]
      ]

  pub flush_from-Kept :
      (rounds i : ℕ) (first_error : DbError) (p : Pool) (w : disk.World)
      → Coherent (honest.content w) p.frames
      → let (code, p', w') = flush_from disk rounds i first_error p w in
        Kept (honest.content w) (honest.content w') p p'
        × (is_ok code ≡ true → is_ok first_error ≡ true)
        × ((k : ℕ) → k < i → frame_at p'.frames k ≡ frame_at p.frames k)
        × (is_ok code ≡ true
            → (k : ℕ) → i ≤ k
            → k < i + rounds
            → (frame_at p'.frames k).in_use ≡ true
            → (frame_at p'.frames k).page.dirty ≡ false)
  unfolding flush_from
  flush_from-Kept zero i first_error p w c = (
    Kept-self (honest.content w) p c,
    (λ ok. ok),
    (λ k lt. refl),
    λ ok k lo hi used. absurd (omega arith),
  )
  flush_from-Kept (suc rounds) i first_error p w c =
      let code = (flush_frame disk i p w).0 in
      let p1 = (flush_frame disk i p w).1 in
      let w1 = (flush_frame disk i p w).2 in
      let (kept, cleans, others) = flush_frame-Kept i p w c in
      let next = if is_ok first_error then code else first_error in
      let rest = flush_from-Kept rounds (i + 1) next p1 w1 kept.coherent in
      let p2 = (flush_from disk rounds (i + 1) next p1 w1).1 in
      let w2 = (flush_from disk rounds (i + 1) next p1 w1).2 in
      let both : is_ok next ≡ true → (is_ok first_error ≡ true) × (is_ok code ≡ true) =
        both_ok first_error code in
      (
        Kept-trans (honest.content w) (honest.content w1) (honest.content w2) p p1 p2 kept rest.0,
        (λ ok. (both (rest.1 ok)).0),
        (λ k lt. rest.2 k (omega arith) ∙ others k (omega arith)),
        λ ok k lo hi used. elim (Bool-cases (k == i)) [
          | inl e ↦
              let eq : i ≡ k = ground arith in
              let same = rest.2 k (omega arith) in
              let used_1 = ap (λ f. f.in_use) (sym same) ∙ used in
              ap (λ f. f.page.dirty) same
              ∙ subst
                  (λ m.
                    (frame_at p1.frames m).in_use ≡ true
                    → (frame_at p1.frames m).page.dirty ≡ false)
                  eq (cleans (both (rest.1 ok)).1) used_1
          | inr e ↦ rest.3 ok k (ground arith) (omega arith) used
        ],
      )

  pub flush_victims-Kept :
      (victims : List ℕ) (p : Pool) (w : disk.World)
      → Coherent (honest.content w) p.frames
      → let (code, p', w') = flush_victims disk victims p w in
        Kept (honest.content w) (honest.content w') p p'
  unfolding flush_victims
  flush_victims-Kept [] p w c = Kept-self (honest.content w) p c
  flush_victims-Kept (i ∷ is) p w c =
      let here = (flush_frame-Kept i p w c).0 in
      let p' = (flush_frame disk i p w).1 in
      let w' = (flush_frame disk i p w).2 in
      let rest = flush_victims-Kept is p' w' here.coherent in
      elim (Bool-cases (is_ok (flush_frame disk i p w).0)) [
        | inl ok ↦ rw ok (
            Kept-trans (honest.content w) (honest.content w')
              (honest.content (flush_victims disk is p' w').2) p p' (flush_victims disk is p' w').1
              here rest)
        | inr bad ↦ rw bad here
      ]

  -- `FlushAll` of a coherent pool over an honest storage changes nothing but dirty marks, readers
  -- see the same pages, and if it answers kOk no page in use is dirty and the storage has each of
  -- them.
  pub flush_all-Kept :
      (p : Pool) (w : disk.World)
      → Coherent (honest.content w) p.frames
      → let (code, p', w') = flush_all disk p w in
        Kept (honest.content w) (honest.content w') p p'
        × (is_ok code ≡ true
            → (k : ℕ) → (frame_at p'.frames k).in_use ≡ true
            → ((frame_at p'.frames k).page.dirty ≡ false)
              × (honest.content w' (frame_at p'.frames k).page.id
                  ≡ (frame_at p'.frames k).page.bytes))
  unfolding flush_all Clean
  flush_all-Kept p w c =
      let n = length p.frames in
      let r = flush_from-Kept n 0 DbError.ok p w c in
      (
        r.0,
        λ ok k used.
            let lt = used_inside (flush_from disk n 0 DbError.ok p w).1.frames k used in
            let size = r.0.length in
            let clean = r.3 ok k (omega arith) (omega arith) used in
            (clean, sym (r.0.coherent.clean k used clean)),
      )
