-- ===== src/Db/Pool/Shrink.antt =====
-- What `Resize` promises, and its branches that take frames away.
use nexus_db.Prelude.{
  ℕ, ◌+◌, ◌≤◌, ◌<◌, ◌≡◌, ◌≢◌, refl, sym, ap, ◌∙◌, subst, inl, inr, true, false, List, [], ◌∷◌,
  if◌then◌else◌, length, All, Bool-cases, arith,
}
use nexus_db.Db.Status.{DbError, is_ok}
use nexus_db.Db.Page.{Bytes}
use nexus_db.Db.Disk.{Disk, Honest}
use nexus_db.Db.Pool.{
  Frame, Pool, frame_at, can_go, size, trim, release, flush_frame, flush_victims, shrink,
}
use nexus_db.Db.Pool.Frames.{
  Resembles-Filled, Clean, Coherent, Resembles, view, view-Resembles, Resembles-Unique,
}
use nexus_db.Db.Pool.Kept.{Kept}
use nexus_db.Db.Pool.Flush.{flush_frame-Kept, flush_victims-Kept}
use nexus_db.Db.Pool.Victims.{Distinct, Chosen, All-sym}
use nexus_db.Db.Pool.Release.{frame_at-trim, size-trim, length-trim, release-Released}
use nexus_db.Db.Pool.Hit.{WellFormed}

-- What `Resize` to `n` frames promises.
pub record Resized (before after : ℕ → Bytes) (n : ℕ) (p p' : Pool) (code : DbError) : Type 0 where
  pub well_formed : WellFormed after p'
  pub capacity : p'.capacity ≡ (if is_ok code then n else p.capacity)
  pub shown : (id : ℕ) → view after p'.frames id ≡ view before p.frames id
  pub pinned :
      (k : ℕ)
      → (frame_at p.frames k).in_use ≡ true
      → 0 < (frame_at p.frames k).pin_count
      → frame_at p'.frames k ≡ frame_at p.frames k
  pub refused : is_ok code ≡ false → Resembles p.frames p'.frames

-- The pool is left alone, or gets another capacity or more free frames.
pub widened :
    (content : ℕ → Bytes) (n : ℕ) (p p' : Pool) (code : DbError)
    → WellFormed content p
    → ((k : ℕ) → frame_at p'.frames k ≡ frame_at p.frames k)
    → size p'.frames ≡ size p.frames
    → p'.capacity ≡ (if is_ok code then n else p.capacity)
    → p.capacity ≤ p'.capacity
    → p'.capacity ≤ length p'.frames
    → Resized content content n p p' code
unfolding Resembles Clean
widened content n p p' code w same sizes cap_eq more slots =
    let fits = w.fits in
    let alike : Resembles p.frames p'.frames = λ k. rw (same k) (refl, λ u. (refl, refl)) in
    record {
      well_formed = record {
        coherent = record {
          unique = Resembles-Unique p.frames p'.frames alike w.coherent.unique;
          filled = Resembles-Filled p.frames p'.frames alike w.coherent.filled;
          clean = λ k. rw (same k) (w.coherent.clean k);
        };
        fits = omega arith;
        slots = slots;
      };
      capacity = cap_eq;
      shown =
          view-Resembles content content p.frames p'.frames w.coherent.unique alike
            (λ id free. refl);
      pinned = λ k used pos. same k;
      refused = λ bad. alike;
    }

All-map : (P Q : ℕ → Type 0) (is : List ℕ) → ((i : ℕ) → P i → Q i) → All P is → All Q is
All-map P Q [] f h = tt
All-map P Q (i ∷ is) f h = (f i h.0, All-map P Q is f h.1)

-- What a reader sees is not changed by the frames that `TrimFreeFrames` frees.
trim-Resembles : (n : ℕ) (frames : List Frame) → Resembles frames (trim n frames)
unfolding Resembles
trim-Resembles n frames k =
    let (used, same) = frame_at-trim n frames k in
    (used, λ u. (ap (λ f. f.page.id) (same u), ap (λ f. f.page.bytes) (same u)))

trim-Clean :
    (content : ℕ → Bytes) (n : ℕ) (frames : List Frame)
    → Clean content frames
    → Clean content (trim n frames)
unfolding Clean
trim-Clean content n frames c k used clean =
    let (u, same) = frame_at-trim n frames k in
    let was = sym u ∙ used in
    let e = same was in
    ap (λ f. f.page.bytes) e
    ∙ c k was (ap (λ f. f.page.dirty) (sym e) ∙ clean)
    ∙ ap (λ f. content f.page.id) (sym e)

pub nothing : Distinct []
unfolding Distinct
nothing = tt

module _ (disk : Disk) (honest : Honest disk) where
  -- The loop over the victims touches no other frame, and cleans them if no write fails.
  victims_clean :
      (victims : List ℕ) (p : Pool) (w : disk.World)
      → Coherent (honest.content w) p.frames
      → Distinct victims
      → All (λ i. (frame_at p.frames i).in_use ≡ true) victims
      → let (code, p', w') = flush_victims disk victims p w in
        ((k : ℕ) → All (λ i. i ≢ k) victims → frame_at p'.frames k ≡ frame_at p.frames k)
        × (is_ok code ≡ true
            → All
                (λ i.
                  ((frame_at p'.frames i).in_use ≡ true)
                  × ((frame_at p'.frames i).page.dirty ≡ false))
                victims)
  unfolding flush_victims Distinct Resembles
  victims_clean [] p w c d h = ((λ k ne. refl), λ ok. tt)
  victims_clean (i ∷ is) p w c d h =
      let (kept, cleans, others) = flush_frame-Kept disk honest i p w c in
      let p1 = (flush_frame disk i p w).1 in
      let w1 = (flush_frame disk i p w).2 in
      let p2 = (flush_victims disk is p1 w1).1 in
      let still : (j : ℕ)
          → (frame_at p.frames j).in_use ≡ true
          → (frame_at p1.frames j).in_use ≡ true =
        λ j u. (kept.resembles j).0 ∙ u in
      let (rest, clean) = victims_clean is p1 w1 kept.coherent d.1 (
        All-map (λ j. (frame_at p.frames j).in_use ≡ true)
          (λ j. (frame_at p1.frames j).in_use ≡ true) is still h.1) in
      let own : frame_at p2.frames i ≡ frame_at p1.frames i = rest i (All-sym i is d.0) in
      let goal : DbError × Pool × disk.World → Type 0 = λ r.
        ((k : ℕ) → All (λ j. j ≢ k) (i ∷ is) → frame_at r.1.frames k ≡ frame_at p.frames k)
        × (is_ok r.0 ≡ true
            → All
                (λ j.
                  ((frame_at r.1.frames j).in_use ≡ true)
                  × ((frame_at r.1.frames j).page.dirty ≡ false))
                (i ∷ is)) in
      elim (Bool-cases (is_ok (flush_frame disk i p w).0)) [
        | inl ok ↦
            let step : flush_victims disk (i ∷ is) p w ≡ flush_victims disk is p1 w1 = rw ok refl in
            subst goal (sym step) (
              (λ k ne. rest k ne.1 ∙ others k (λ e. ne.0 (sym e))),
              λ ok'. (
                (
                  ap (λ f. f.in_use) own ∙ still i h.0,
                  ap (λ f. f.page.dirty) own ∙ cleans ok (still i h.0),
                ),
                clean ok',
              ),
            )
        | inr bad ↦
            let step : flush_victims disk (i ∷ is) p w ≡ flush_frame disk i p w = rw bad refl in
            subst goal (sym step) ((λ k ne. others k (λ e. ne.0 (sym e))), λ ok'. cc)
      ]

  -- The victims are clean: they are released, and free frames behind the new capacity go.
  released_victims :
      (content content1 : ℕ → Bytes) (n : ℕ) (victims : List ℕ) (p p1 : Pool)
      → Kept content content1 p p1
      → Distinct victims
      → All
          (λ i.
            ((frame_at p1.frames i).in_use ≡ true) × ((frame_at p1.frames i).page.dirty ≡ false))
          victims
      → ((k : ℕ)
          → 0 < (frame_at p.frames k).pin_count
          → All (λ i. i ≢ k) victims × (frame_at p1.frames k ≡ frame_at p.frames k))
      → size p.frames ≤ n + length victims
      → n ≤ length p.frames
      → Resized content content1 n p
          (record p1 { capacity = n; frames = trim n (release victims p1.frames) })
          DbError.ok
  released_victims content content1 n victims p p1 kept distinct clean stay enough room =
      let gone = release-Released content1 victims p1.frames kept.coherent distinct clean in
      let freed = release victims p1.frames in
      let alike = trim-Resembles n freed in
      let size_eq = kept.size in
      let len_eq = kept.length in
      let sum = gone.size in
      let trimmed = size-trim n freed in
      let count = gone.count in
      record {
        well_formed = record {
          coherent = record {
            unique = Resembles-Unique freed (trim n freed) alike gone.coherent.unique;
            filled = Resembles-Filled freed (trim n freed) alike gone.coherent.filled;
            clean = trim-Clean content1 n freed gone.coherent.clean;
          };
          fits = omega arith;
          slots = length-trim n freed (omega arith);
        };
        capacity = refl;
        shown = λ id.
            view-Resembles content1 content1 freed (trim n freed) gone.coherent.unique alike
              (λ j free. refl) id
            ∙ gone.shown id
            ∙ kept.shown id;
        pinned = λ k u pos.
            let (apart, still) = stay k pos in
            let same = gone.others k apart ∙ still in
            (frame_at-trim n freed k).1 (ap (λ f. f.in_use) same ∙ u) ∙ same;
        refused = λ b. cc;
      }

  pub shrink-Resized :
      (n : ℕ) (victims : List ℕ) (p : Pool) (w : disk.World)
      → WellFormed (honest.content w) p
      → n ≤ p.capacity
      → Chosen (λ i. can_go (frame_at p.frames i) ≡ true) victims
      → size p.frames ≤ n + length victims
      → let (code, p', w') = shrink disk n victims p w in
        Resized (honest.content w) (honest.content w') n p p' code
  unfolding shrink
  shrink-Resized n victims p w wf le chosen enough =
      let p1 = (flush_victims disk victims p w).1 in
      let w1 = (flush_victims disk victims p w).2 in
      let kept = flush_victims-Kept disk honest victims p w wf.coherent in
      let used : All (λ i. (frame_at p.frames i).in_use ≡ true) victims =
        All-map (λ i. can_go (frame_at p.frames i) ≡ true)
          (λ i. (frame_at p.frames i).in_use ≡ true) victims (λ i go. ground arith) chosen.each in
      let (others, cleans) = victims_clean victims p w wf.coherent chosen.distinct used in
      let apart : (k : ℕ) → 0 < (frame_at p.frames k).pin_count → All (λ i. i ≢ k) victims =
        λ k pos.
          All-map (λ i. can_go (frame_at p.frames i) ≡ true) (λ i. i ≢ k) victims
            (λ i go e. let pins = ap (λ m. (frame_at p.frames m).pin_count) e in ground arith)
            chosen.each in
      let fits = wf.fits in
      let slots = wf.slots in
      let size_eq = kept.size in
      let len_eq = kept.length in
      let cap_eq = kept.capacity in
      elim (Bool-cases (is_ok (flush_victims disk victims p w).0)) [
        | inr bad ↦ rw bad (record {
          well_formed = record {
            coherent = kept.coherent;
            fits = omega arith;
            slots = omega arith;
          };
          capacity = rw bad cap_eq;
          shown = kept.shown;
          pinned = λ k u pos. others k (apart k pos);
          refused = λ b. kept.resembles;
        })
        | inl ok ↦ rw ok (
            released_victims (honest.content w) (honest.content w1) n victims p p1 kept
              chosen.distinct (cleans ok) (λ k pos. (apart k pos, others k (apart k pos))) enough
              (omega arith))
      ]
