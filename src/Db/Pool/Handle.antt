-- ===== src/Db/Pool/Handle.antt =====
-- `BufferPool::Handle`: an empty handle, or the index of the frame that it pins. Each of its ends
-- gives back one pin, and none twice.
use nexus_db.Prelude.{ℕ, ◌≡◌, refl, Option, none, some}
use nexus_db.Db.Status.{DbError}
use nexus_db.Db.Page.{Bytes}
use nexus_db.Db.Pool.{Pool, unpin_frame}
use nexus_db.Db.Pool.Frames.{view}
use nexus_db.Db.Pool.Hit.{WellFormed}
use nexus_db.Db.Pool.Client.{unpin_frame-Shown}

-- `~Handle`
unfoldable pub drop_handle : Option ℕ → Pool → Pool
drop_handle none p = p
drop_handle (some frame) p = unpin_frame frame p

-- `Handle::Unpin`: the code, what is left of the handle, and the pool.
unfoldable pub unpin : Option ℕ → Pool → DbError × Option ℕ × Pool
unpin none p = (DbError.invalid_argument, none, p)
unpin (some frame) p = (DbError.ok, none, unpin_frame frame p)

-- The assignment of another handle, which moves it: this handle, the other, and the pool.
unfoldable pub assign : Option ℕ → Option ℕ → Pool → Option ℕ × Option ℕ × Pool
assign own other p = (other, none, drop_handle own p)

drop_handle-Shown :
    (content : ℕ → Bytes) (h : Option ℕ) (p : Pool)
    → WellFormed content p
    → WellFormed content (drop_handle h p)
      × ((id : ℕ) → view content (drop_handle h p).frames id ≡ view content p.frames id)
unfolding drop_handle
drop_handle-Shown content none p w = (w, λ id. refl)
drop_handle-Shown content (some frame) p w = unpin_frame-Shown content p frame w

-- However a handle ends, by `Unpin` and then its destructor, or by its destructor alone, the pool
-- is left the same: the pin is given back once.
unpin-drop_handle :
    (h : Option ℕ) (p : Pool)
    → let (code, h', p') = unpin h p in drop_handle h' p' ≡ drop_handle h p
unfolding unpin drop_handle
unpin-drop_handle none p = refl
unpin-drop_handle (some frame) p = refl

-- An assignment leaves the other handle empty, so that its destructor gives back nothing, and the
-- pool is well formed with the same pages for its readers.
assign-Shown :
    (content : ℕ → Bytes) (own other : Option ℕ) (p : Pool)
    → WellFormed content p
    → let (own', other', p') = assign own other p in
      (drop_handle other' p' ≡ p')
      × WellFormed content p'
      × ((id : ℕ) → view content p'.frames id ≡ view content p.frames id)
unfolding assign drop_handle
assign-Shown content own other p w =
    let (well, shown) = drop_handle-Shown content own p w in (refl, well, shown)
