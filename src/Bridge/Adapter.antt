-- ===== src/Bridge/Adapter.antt =====
-- src/bridge/buffer_pool_adapter.cpp: how a request of the bridge reaches the engine's buffer pool.
use nexus_db.Prelude.{
  ℕ, ◌<◌, false, arith, ◌≡◌, ◌≢◌, ◌⊎◌, refl, inl, inr, Bool, ◌==◌, if◌then◌else◌, Bool-cases,
}
use nexus_db.Rc.{Rc}
use nexus_db.Db.Status.{DbError, is_ok}
use nexus_db.Db.Disk.{Disk, Honest}
use nexus_db.Db.Pool.{Pool, resize}
use nexus_db.Db.Pool.Frames.{view}
use nexus_db.Db.Pool.Hit.{WellFormed}
use nexus_db.Db.Pool.Resize.{resize-Resized, resize-refused}

-- The code for the engine's answer.
unfoldable pub request_code : DbError → Rc
request_code code = if is_ok code then Rc.ok else Rc.process

-- `nexus_bridge_buffer_pool_request` with the pool as its context.
unfoldable pub buffer_pool_request :
    (disk : Disk) → (ℕ → Bool) → ℕ → Pool → disk.World → Rc × Pool × disk.World
buffer_pool_request disk allocates target p w =
    let (code, p', w') = resize disk allocates target p w in
    if target == 0 then (Rc.invalid, p, w) else (request_code code, p', w')

-- A request of the bridge to a well-formed pool over an honest storage keeps the pool so and every
-- page as readers see it. It returns NEXUS_OK with the capacity at the target, or an error with the
-- capacity as it was. The error is for the target 0, or the capacity is not the target, and then a
-- target above it is refused only where there is no memory for it.
pub request-Answered :
    (disk : Disk) (honest : Honest disk) (allocates : ℕ → Bool) (target : ℕ) (p : Pool)
    (w : disk.World)
    → WellFormed (honest.content w) p
    → let (code, p', w') = buffer_pool_request disk allocates target p w in
      WellFormed (honest.content w') p'
      × ((id : ℕ) → view (honest.content w') p'.frames id ≡ view (honest.content w) p.frames id)
      × (((code ≡ Rc.ok) × (p'.capacity ≡ target))
          ⊎ ((code ≢ Rc.ok)
              × (p'.capacity ≡ p.capacity)
              × ((target ≡ 0)
                  ⊎ ((p.capacity ≢ target) × (p.capacity < target → allocates target ≡ false)))))
unfolding buffer_pool_request request_code
request-Answered disk honest allocates target p w wf =
    let r = resize-Resized disk honest allocates target p w wf in
    let cap = r.capacity in
    elim (Bool-cases (target == 0)) [
      | inl e ↦ rw e (wf, (λ id. refl), inr ((λ h. cc), refl, inl (ground arith)))
      | inr e ↦ elim (Bool-cases (is_ok (resize disk allocates target p w).0)) [
        | inl ok ↦ rw (e, ok) (r.well_formed, r.shown, inl (refl, rw ok at cap))
        | inr bad ↦
            let why = resize-refused disk honest allocates target p w bad in
            rw (e, bad) (r.well_formed, r.shown, inr ((λ h. cc), rw bad at cap, why))
      ]
    ]
