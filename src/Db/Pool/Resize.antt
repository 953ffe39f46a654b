-- ===== src/Db/Pool/Resize.antt =====
-- `Resize`: it takes effect as a whole or not at all, and readers see no difference.
use nexus_db.Prelude.{
  ◌≢◌, ◌<◌, ◌⊎◌, ℕ, ◌-◌, ◌≡◌, refl, inl, inr, Bool, true, false, [], ◌++◌, ltb, leb, ◌==◌, length,
  take, replicate, Bool-cases, length-append, length-replicate, arith,
}
use nexus_db.Db.Status.{DbError, is_ok}
use nexus_db.Db.Disk.{Disk, Honest}
use nexus_db.Db.Pool.{Pool, empty_frame, can_go, size, indices, sort_by_use, resize}
use nexus_db.Db.Pool.Victims.{victims-Chosen}
use nexus_db.Db.Pool.Release.{frame_at-append, size-append}
use nexus_db.Db.Pool.Hit.{WellFormed}
use nexus_db.Db.Pool.Shrink.{Resized, widened, nothing, shrink-Resized}

module _ (disk : Disk) (honest : Honest disk) where
  -- A resize that is refused at once.
  refused :
      (n : ℕ) (p : Pool) (w : disk.World) (code : DbError)
      → WellFormed (honest.content w) p
      → is_ok code ≡ false
      → Resized (honest.content w) (honest.content w) n p p code
  refused n p w code wf bad =
      widened (honest.content w) n p p code wf (λ k. refl) refl (rw bad refl) (omega arith) wf.slots

  -- To more frames, whether the vector is grown or not.
  grown-Resized :
      (allocates : ℕ → Bool) (n : ℕ) (p : Pool) (w : disk.World)
      → WellFormed (honest.content w) p
      → (n == 0) ≡ false
      → (n == p.capacity) ≡ false
      → ltb p.capacity n ≡ true
      → let (code, p', w') = resize disk allocates n p w in
        Resized (honest.content w) (honest.content w') n p p' code
  unfolding resize
  grown-Resized allocates n p w wf e1 e2 up =
      let fits = wf.fits in
      let slots = wf.slots in
      let content = honest.content w in
      elim (Bool-cases (leb n (length p.frames))) [
        | inl e ↦
            rw (e1, e2, up, e)
              (widened content n p (record p { capacity = n }) DbError.ok wf (λ k. refl) refl refl
                (ground arith) (ground arith))
        | inr e3 ↦ elim (Bool-cases (allocates n)) [
          | inr e ↦ rw (e1, e2, up, e3, e) (refused n p w DbError.out_of_memory wf refl)
          | inl e ↦
              let m = n - length p.frames in
              let more = length-append p.frames (replicate m empty_frame) in
              let new = length-replicate m empty_frame in
              rw (e1, e2, up, e3, e)
                (widened content n p
                  (record p { capacity = n; frames = p.frames ++ replicate m empty_frame })
                  DbError.ok wf (frame_at-append p.frames m) (size-append p.frames m) refl
                  (ground arith) (ground arith))
        ]
      ]

  -- To fewer frames, whether pages have to go or not.
  reduced-Resized :
      (allocates : ℕ → Bool) (n : ℕ) (p : Pool) (w : disk.World)
      → WellFormed (honest.content w) p
      → (n == 0) ≡ false
      → (n == p.capacity) ≡ false
      → ltb p.capacity n ≡ false
      → let (code, p', w') = resize disk allocates n p w in
        Resized (honest.content w) (honest.content w') n p p' code
  unfolding resize
  reduced-Resized allocates n p w wf e1 e2 down =
      let needed = size p.frames - n in
      elim (Bool-cases (needed == 0)) [
        | inl e ↦
            rw (e1, e2, down, e)
              (shrink-Resized disk honest n [] p w wf (ground arith)
                (record { each = tt; distinct = nothing }) (ground arith))
        | inr e3 ↦ elim (Bool-cases (allocates needed)) [
          | inr e ↦ rw (e1, e2, down, e3, e) (refused n p w DbError.out_of_memory wf refl)
          | inl e4 ↦ elim (Bool-cases (ltb (length (indices can_go p.frames 0)) needed)) [
            | inl e ↦ rw (e1, e2, down, e3, e4, e) (refused n p w DbError.buffer_full wf refl)
            | inr e5 ↦
                let (chosen, many) = victims-Chosen p.frames needed (ground arith) in
                rw (e1, e2, down, e3, e4, e5)
                  (shrink-Resized disk honest n
                    (take needed (sort_by_use p.frames (indices can_go p.frames 0))) p w wf
                    (ground arith) chosen (omega arith))
          ]
        ]
      ]

  -- A resize that is refused is one to no frames, or to another number of frames than there are,
  -- and one to more frames is refused only for want of memory.
  pub resize-refused :
      (allocates : ℕ → Bool) (n : ℕ) (p : Pool) (w : disk.World)
      → is_ok (resize disk allocates n p w).0 ≡ false
      → (n ≡ 0) ⊎ ((p.capacity ≢ n) × (p.capacity < n → allocates n ≡ false))
  unfolding resize
  resize-refused allocates n p w = elim (Bool-cases (n == 0)) [
    | inl e ↦ λ bad. inl (ground arith)
    | inr e1 ↦ elim (Bool-cases (n == p.capacity)) [
      | inl e ↦ rw (e1, e) (λ bad. cc)
      | inr e2 ↦ elim (Bool-cases (ltb p.capacity n)) [
        | inr down ↦ λ bad. inr ((λ same. ground arith), λ up. absurd (ground arith))
        | inl up ↦ elim (Bool-cases (allocates n)) [
          | inr none ↦ λ bad. inr ((λ same. ground arith), λ u. none)
          | inl some ↦ elim (Bool-cases (leb n (length p.frames))) [
            | inl e ↦ rw (e1, e2, up, e) (λ bad. cc)
            | inr e ↦ rw (e1, e2, up, e, some) (λ bad. cc)
          ]
        ]
      ]
    ]
  ]

  -- `Resize` of a coherent pool within its capacity over an honest storage, whether or not there is
  -- memory. It keeps the pool so, readers see the same pages, and the frames that handles pin are
  -- untouched. With kOk the capacity is the new one; else it and the resident pages are the old
  -- ones.
  pub resize-Resized :
      (allocates : ℕ → Bool) (n : ℕ) (p : Pool) (w : disk.World)
      → WellFormed (honest.content w) p
      → let (code, p', w') = resize disk allocates n p w in
        Resized (honest.content w) (honest.content w') n p p' code
  unfolding resize
  resize-Resized allocates n p w wf = elim (Bool-cases (n == 0)) [
    | inl e ↦ rw e (refused n p w DbError.invalid_argument wf refl)
    | inr e1 ↦ elim (Bool-cases (n == p.capacity)) [
      | inl e ↦
          let slots = wf.slots in
          rw (e1, e)
            (widened (honest.content w) n p p DbError.ok wf (λ k. refl) refl (ground arith)
              (omega arith) slots)
      | inr e2 ↦ elim (Bool-cases (ltb p.capacity n)) [
        | inl up ↦ grown-Resized allocates n p w wf e1 e2 up
        | inr down ↦ reduced-Resized allocates n p w wf e1 e2 down
      ]
    ]
  ]
