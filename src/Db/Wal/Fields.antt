-- ===== src/Db/Wal/Fields.antt =====
-- Fields of a header: what is read after a write.
use nexus_db.Prelude.{ℕ, zero, suc, ◌+◌, ◌*◌, ◌/◌, ◌%◌, ◌≤◌, ◌<◌, ◌≡◌, refl, arith}
use nexus_db.Db.Page.{Bytes, put}
use nexus_db.Db.Page.Access.{Apart}
use nexus_db.Db.Wal.{write_le, read_le}

-- The numbers of `n` bytes are below this.
unfoldable pub bound : ℕ → ℕ
bound zero = 1
bound (suc n) = 256 * bound n

pub write_le-Apart : (n : ℕ) (d : Bytes) (i v j : ℕ) → Apart i n j 1 → write_le n d i v j ≡ d j
unfolding write_le
write_le-Apart zero d i v j h = refl
write_le-Apart (suc n) d i v j h =
    let rest = write_le-Apart n (put d i (v % 256)) (i + 1) (v / 256) j (omega arith) in
    ground arith

pub read_le-eq :
    (n : ℕ) (d d' : Bytes) (i : ℕ)
    → ((k : ℕ) → i ≤ k → k < i + n → d' k ≡ d k)
    → read_le n d' i ≡ read_le n d i
unfolding read_le
read_le-eq zero d d' i h = refl
read_le-eq (suc n) d d' i h =
    let first = h i (omega arith) (omega arith) in
    let rest = read_le-eq n d d' (i + 1) (λ k lo hi. h k (omega arith) (omega arith)) in
    rw (first, rest) refl

pub read_le-write_le-Apart :
    (n m : ℕ) (d : Bytes) (i v j : ℕ)
    → Apart i m j n
    → read_le n (write_le m d i v) j ≡ read_le n d j
read_le-write_le-Apart n m d i v j h =
    read_le-eq n d (write_le m d i v) j (λ k lo hi. write_le-Apart m d i v k (omega arith))

pub read_le-write_le :
    (n : ℕ) (d : Bytes) (i v : ℕ) → v < bound n → read_le n (write_le n d i v) i ≡ v
unfolding read_le write_le bound
read_le-write_le zero d i v h = omega arith
read_le-write_le (suc n) d i v h =
    let rest = read_le-write_le n (put d i (v % 256)) (i + 1) (v / 256) (omega arith) in
    let first = write_le-Apart n (put d i (v % 256)) (i + 1) (v / 256) i (omega arith) in
    ground arith
