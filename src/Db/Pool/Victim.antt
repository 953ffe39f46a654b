-- ===== src/Db/Pool/Victim.antt =====
-- `AcquireFrame`: the frame it gives is free, or the least recently used of those that no handle
-- pins.
use nexus_db.Prelude.{
  ℕ, zero, suc, ◌+◌, ◌≤◌, ◌<◌, ◌≡◌, ◌≢◌, refl, sym, ap, ◌∙◌, subst, ◌⊎◌, inl, inr, true, false,
  ◌&&◌, Option, none, some, List, [], ◌∷◌, ltb, length, find_index, Bool-cases, Option-cases, arith,
}
use nexus_db.Prelude.Search.{find_index-passes}
use nexus_db.Db.Status.{DbError, is_ok, is_ok→ok}
use nexus_db.Db.Disk.{Disk, Honest}
use nexus_db.Db.Pool.{
  Frame, Pool, empty_frame, frame_at, is_free, can_go, size, stamp_max, find_victim, flush_frame,
  evict, acquire_frame,
}
use nexus_db.Db.Pool.Frames.{Coherent}
use nexus_db.Db.Pool.Kept.{in_use-Kept, Kept, Kept-self}
use nexus_db.Db.Pool.Flush.{flush_frame-Kept}

-- Frame `k` is the least recently used of those that may go, and older than `oldest`.
unfoldable pub Least : List Frame → ℕ → ℕ → Type 0
Least frames oldest k =
    (can_go (frame_at frames k) ≡ true)
    × ((frame_at frames k).last_used < oldest)
    × ((m : ℕ)
        → can_go (frame_at frames m) ≡ true
        → (frame_at frames k).last_used ≤ (frame_at frames m).last_used)

each :
    (P : Frame → Type 0) (f : Frame) (fs : List Frame)
    → P f
    → ((n : ℕ) → P (frame_at fs n))
    → (m : ℕ) → P (frame_at (f ∷ fs) m)
each P f fs here rest zero = here
each P f fs here rest (suc n) = rest n

-- The loop ends with the victim so far, or with a better one.
find_victim_cases :
    (frames : List Frame) (i : ℕ) (victim : Option ℕ) (oldest : ℕ)
    → ((find_victim frames i victim oldest ≡ victim)
        × ((m : ℕ) → can_go (frame_at frames m) ≡ true → oldest ≤ (frame_at frames m).last_used))
      ⊎ ((k : ℕ) × (find_victim frames i victim oldest ≡ some (i + k)) × Least frames oldest k)
unfolding find_victim Least
find_victim_cases [] i victim oldest = inl (refl, λ m go. cc)
find_victim_cases (f ∷ fs) i victim oldest =
    elim (Bool-cases (can_go f && ltb f.last_used oldest)) [
      | inl e ↦
          let goes : can_go f ≡ true = ground arith in
          let older : f.last_used < oldest = ground arith in
          elim (find_victim_cases fs (i + 1) (some i) f.last_used) [
            | inl (same, all) ↦ inr (
              0,
              rw e (same ∙ ap some (omega arith)),
              (
                goes,
                older,
                each (λ g. can_go g ≡ true → f.last_used ≤ g.last_used) f fs (λ go. omega arith)
                    all,
              ),
            )
            | inr (k, found, (go, lt, least)) ↦ inr (
              suc k,
              rw e (found ∙ ap some (omega arith)),
              (
                go,
                omega arith,
                each (λ g. can_go g ≡ true → (frame_at fs k).last_used ≤ g.last_used) f fs
                    (λ go'. omega arith) least,
              ),
            )
          ]
      | inr e ↦ elim (find_victim_cases fs (i + 1) victim oldest) [
        | inl (same, all) ↦ inl (
          rw e same,
          each (λ g. can_go g ≡ true → oldest ≤ g.last_used) f fs (λ go. ground arith) all,
        )
        | inr (k, found, (go, lt, least)) ↦ inr (
          suc k,
          rw e (found ∙ ap some (omega arith)),
          (
            go,
            lt,
            each (λ g. can_go g ≡ true → (frame_at fs k).last_used ≤ g.last_used) f fs
                (λ go'. let late : oldest ≤ f.last_used = ground arith in omega arith) least,
          ),
        )
      ]
    ]

-- What `AcquireFrame` may answer.
pub data Acquired (p p' : Pool) : DbError → Option ℕ → Type 0 where
  free_frame :
      (i : ℕ)
      → i < length p'.frames
      → (frame_at p'.frames i).in_use ≡ false
      → size p'.frames < p'.capacity
      → Acquired p p' DbError.ok (some i)
  evicted :
      (i : ℕ)
      → Least p.frames stamp_max i
      → (frame_at p'.frames i).in_use ≡ true
      → (frame_at p'.frames i).page.dirty ≡ false
      → Acquired p p' DbError.ok (some i)
  write_failed : (code : DbError) → is_ok code ≡ false → Acquired p p' code none
  all_pinned :
      ((m : ℕ) → can_go (frame_at p.frames m) ≡ true → stamp_max ≤ (frame_at p.frames m).last_used)
      → Acquired p p' DbError.buffer_full none

module _ (disk : Disk) (honest : Honest disk) where
  -- Frames that a handle pins stay as they are.
  unfoldable pub PinnedStay : Pool → Pool → Type 0
  PinnedStay p p' =
      (k : ℕ) → 0 < (frame_at p.frames k).pin_count → frame_at p'.frames k ≡ frame_at p.frames k

  evict-Acquired :
      (p : Pool) (w : disk.World)
      → Coherent (honest.content w) p.frames
      → let (code, slot, p', w') = evict disk (find_victim p.frames 0 none stamp_max) p w in
        Kept (honest.content w) (honest.content w') p p' × Acquired p p' code slot × PinnedStay p p'
  unfolding evict PinnedStay Least
  evict-Acquired p w c = elim (find_victim_cases p.frames 0 none stamp_max) [
    | inl (e, all) ↦ rw e (Kept-self (honest.content w) p c, Acquired.all_pinned all, λ k pos. refl)
    | inr (i, e, least) ↦
        let (kept, cleans, others) = flush_frame-Kept disk honest i p w c in
        let named : find_victim p.frames 0 none stamp_max ≡ some i = e ∙ ap some (omega arith) in
        let stay : (k : ℕ) → 0 < (frame_at p.frames k).pin_count → k ≢ i = λ k pos same.
          let none : (frame_at p.frames i).pin_count ≡ 0 = let go = least.0 in ground arith in
          let pin = ap (λ m. (frame_at p.frames m).pin_count) same in omega arith in
        elim (Bool-cases (is_ok (flush_frame disk i p w).0)) [
          | inl ok ↦
              let p' = (flush_frame disk i p w).1 in
              let was : (frame_at p.frames i).in_use ≡ true = let go = least.0 in ground arith in
              let used =
                (in_use-Kept (honest.content w) (honest.content (flush_frame disk i p w).2) p p'
                  kept i)
                ∙ was in
              rw (named, ok)
                (
                  kept,
                  subst (λ x. Acquired p p' x (some i))
                      (sym (is_ok→ok (flush_frame disk i p w).0 ok))
                      (Acquired.evicted i least used (cleans ok used)),
                  λ k pos. others k (stay k pos),
                )
          | inr bad ↦
              rw (named, bad)
                (
                  kept,
                  Acquired.write_failed (flush_frame disk i p w).0 bad,
                  λ k pos. others k (stay k pos),
                )
        ]
  ]

  -- `AcquireFrame` of a coherent pool over an honest storage. A frame it gives is free while the
  -- pool is below its capacity, or was written back and is the least recently used of the unpinned
  -- ones. Without a frame a write failed, or every unpinned frame has the largest stamp. The frames
  -- that handles pin are untouched, and readers see the same pages.
  pub acquire_frame-Acquired :
      (p : Pool) (w : disk.World)
      → Coherent (honest.content w) p.frames
      → let (code, slot, p', w') = acquire_frame disk p w in
        Kept (honest.content w) (honest.content w') p p' × Acquired p p' code slot × PinnedStay p p'
  unfolding acquire_frame PinnedStay
  acquire_frame-Acquired p w c = elim (Bool-cases (ltb (size p.frames) p.capacity)) [
    | inr full ↦ rw full (evict-Acquired p w c)
    | inl room ↦ elim (Option-cases (find_index is_free p.frames)) [
      | inl e ↦ rw (room, e) (evict-Acquired p w c)
      | inr (i, e) ↦
          let (lt, free) = find_index-passes is_free p.frames i empty_frame e in
          rw (room, e)
            (
              Kept-self (honest.content w) p c,
              Acquired.free_frame i lt (ground arith) (ground arith),
              λ k pos. refl,
            )
    ]
  ]
