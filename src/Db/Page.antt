-- ===== src/Db/Page.antt =====
-- `Page` of include/db/page.h, and its bytes: what an array of `kPageSize` bytes holds at each
-- index. The little-endian fields are those that slotted_page.cpp and wal.cpp read and write.
pub mod Access
use nexus_db.Prelude.{
  ℕ, zero, suc, ◌+◌, ◌-◌, ◌*◌, ◌/◌, ◌%◌, ◌^◌, ◌≤◌, ◌≡◌, Bool, false, ◌&&◌, List, [], ◌∷◌, ltb, leb,
  ◌==◌, if◌then◌else◌, length, get_or,
}

abbrev pub page_size : ℕ
page_size = 4096

-- `Page::kInvalidId`
abbrev pub invalid_id : ℕ
invalid_id = 0xffff_ffff

abbrev pub Bytes : Type 0
Bytes = ℕ → ℕ

pub record Page : Type 0 where
  pub id : ℕ
  pub dirty : Bool
  pub bytes : Bytes

-- `Page(id)`: zeroed and clean.
abbrev pub new_page : ℕ → Page
new_page id = record { id = id; dirty = false; bytes = λ _. 0 }

-- What the array of a page holds of bytes: nothing stands behind its end.
abbrev pub clip : Bytes → Bytes
clip d j = if ltb j page_size then d j else 0

-- The bytes of a page, as `read` and `memcpy` fill its array.
abbrev pub Whole : Bytes → Type 0
Whole d = (j : ℕ) → page_size ≤ j → d j ≡ 0

-- `d[i] = v`
abbrev pub put : Bytes → ℕ → ℕ → Bytes
put d i v j = if j == i then v else d j

-- `ReadU16(d + i)`. A byte is below 256, so the `|` of the source is a sum.
unfoldable pub read_u16 : Bytes → ℕ → ℕ
read_u16 d i = d i + d (i + 1) * 256

-- `WriteU16(d + i, v)`
unfoldable pub write_u16 : Bytes → ℕ → ℕ → Bytes
write_u16 d i v = put (put d i (v % 256)) (i + 1) (v / 256 % 256)

-- `memcpy(d + i, xs, len)`, where `xs` has `len` bytes.
unfoldable pub copy : Bytes → ℕ → List ℕ → Bytes
copy d i xs j = if leb i j && ltb j (i + length xs) then get_or xs (j - i) 0 else d j

-- `memset(d + i, 0, n)`
unfoldable pub clear : Bytes → ℕ → ℕ → Bytes
clear d i n j = if leb i j && ltb j (i + n) then 0 else d j

-- The `n` bytes at `d + i`.
unfoldable pub bytes_at : Bytes → ℕ → ℕ → List ℕ
bytes_at d i zero = []
bytes_at d i (suc n) = d i ∷ bytes_at d (i + 1) n
