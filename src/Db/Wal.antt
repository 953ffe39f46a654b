-- ===== src/Db/Wal.antt =====
-- src/db/wal/wal.cpp: the write-ahead log as the bytes of its file. A record is a header of 32
-- bytes and the image of a page.
pub mod Fields
pub mod Header
pub mod Records
pub mod Replay
pub mod Recovery
pub mod Engine
pub mod Appends
pub mod Fuel
pub mod Open
use nexus_db.Prelude.{
  ℕ, zero, suc, ◌+◌, ◌-◌, ◌*◌, ◌/◌, ◌%◌, ◌^◌, Bool, true, false, not, ◌&&◌, ◌||◌, Option, none,
  some, List, [], ◌∷◌, ◌++◌, ltb, leb, ◌==◌, if◌then◌else◌, length, get_or, take,
}
use Prim.Native.Nat.{bit_xor}
use nexus_db.Db.Status.{DbError, is_ok}
use nexus_db.Db.Disk.{Disk}
use nexus_db.Db.Page.{Bytes, Page, invalid_id, page_size, put, copy, bytes_at}

-- `Wal::kHeaderSize`, `Wal::kVersion`, `RecordType::kPageImage`, `kPageImagePayload`,
-- `kOffChecksum`
abbrev pub record_header : ℕ
record_header = 32

abbrev pub image_type : ℕ
image_type = 1

abbrev pub image_size : ℕ
image_size = page_size

abbrev pub checksum_offset : ℕ
checksum_offset = 28

-- The little-endian field of `n` bytes at `d + i`: `WriteU16`, `WriteU32` and `WriteU64`.
unfoldable pub write_le : ℕ → Bytes → ℕ → ℕ → Bytes
write_le zero d i v = d
write_le (suc n) d i v = write_le n (put d i (v % 256)) (i + 1) (v / 256)

-- `ReadU16`, `ReadU32` and `ReadU64`
unfoldable pub read_le : ℕ → Bytes → ℕ → ℕ
read_le zero d i = 0
read_le (suc n) d i = d i + 256 * read_le n d (i + 1)

-- The rounds over the bits of a byte in `Crc32Update`.
unfoldable pub crc_bits : ℕ → ℕ → ℕ
crc_bits zero crc = crc
crc_bits (suc rounds) crc =
    crc_bits rounds (bit_xor (crc / 2) (if crc % 2 == 1 then 0xedb8_8320 else 0))

-- `Crc32Update`
unfoldable pub crc32_update : ℕ → List ℕ → ℕ
crc32_update crc [] = crc
crc32_update crc (x ∷ xs) = crc32_update (crc_bits 8 (bit_xor crc x)) xs

-- `Crc32`, of a header's bytes before its checksum, and a payload.
unfoldable pub crc32 : List ℕ → List ℕ → ℕ
crc32 header payload =
    bit_xor (crc32_update (crc32_update 0xffff_ffff header) payload) 0xffff_ffff % 2 ^ 32

pub record Entry : Type 0 where
  pub lsn : ℕ
  pub page_id : ℕ
  pub payload : List ℕ

-- The header that `AppendPageImage` builds, before its checksum.
unfoldable pub unsigned_header : Entry → Bytes
unsigned_header e =
    let magic = put (put (put (put (λ _. 0) 0 0x4e) 1 0x57) 2 0x41) 3 0x31 in
    let typed = write_le 2 (write_le 2 magic 4 1) 6 image_type in
    write_le 4 (write_le 4 (write_le 8 typed 8 e.lsn) 16 e.page_id) 20 image_size

unfoldable pub header_of : Entry → Bytes
header_of e =
    let h = unsigned_header e in
    write_le 4 h checksum_offset (crc32 (bytes_at h 0 checksum_offset) e.payload)

-- The bytes that `AppendPageImage` writes.
unfoldable pub record_bytes : Entry → List ℕ
record_bytes e = bytes_at (header_of e) 0 record_header ++ e.payload

-- What `ReadRecord` answers; `stop truncated` is kEnd.
pub data ReadResult : Type 0 where
  found : Entry → List ℕ → ReadResult
  stop : Bool → ReadResult
  corrupt : ReadResult

-- The stream past the bytes that `read` took.
unfoldable pub skip : ℕ → List ℕ → List ℕ
skip zero xs = xs
skip (suc n) [] = []
skip (suc n) (x ∷ xs) = skip n xs

-- The tests of `ReadRecord` on a whole header.
unfoldable pub header_valid : Bytes → Bool
header_valid h =
    (h 0 == 0x4e && (h 1 == 0x57 && (h 2 == 0x41 && h 3 == 0x31)))
    && (read_le 2 h 4 == 1
        && (read_le 2 h 6 == image_type
            && (leb (read_le 4 h 20) 65536
                && (read_le 4 h 20 == image_size && not (read_le 4 h 16 == invalid_id)))))

-- `ReadRecord`, of what is left of the stream.
unfoldable pub read_record : List ℕ → ReadResult
read_record xs =
    let header = take record_header xs in
    let h : Bytes = λ i. get_or header i 0 in
    let payload = take image_size (skip record_header xs) in
    let entry : Entry = record {
      lsn = read_le 8 h 8;
      page_id = read_le 4 h 16;
      payload = payload;
    } in
    if length header == 0
    then ReadResult.stop false
    else if ltb (length header) record_header
    then ReadResult.stop true
    else if not (header_valid h)
    then ReadResult.corrupt
    else if ltb (length payload) image_size
    then ReadResult.stop true
    else if not (read_le 4 h checksum_offset == crc32 (take checksum_offset header) payload)
    then ReadResult.corrupt
    else ReadResult.found entry (skip image_size (skip record_header xs))

-- The loop of `Scan`, with the records that it may still read: the code, the last LSN, and whether
-- the tail is incomplete.
unfoldable pub scan_log : ℕ → List ℕ → ℕ → DbError × ℕ × Bool
scan_log zero xs last = (DbError.ok, last, false)
scan_log (suc fuel) xs last = elim (read_record xs) [
  | stop truncated ↦ (DbError.ok, last, truncated)
  | corrupt ↦ (DbError.bad_state, last, false)
  | found e rest ↦
      let more = scan_log fuel rest e.lsn in
      if leb e.lsn last then (DbError.bad_state, last, false) else more
]

-- `Wal::Scan`: a record has 4,128 bytes, so there are fewer records than bytes.
unfoldable pub scan : List ℕ → DbError × ℕ × Bool
scan file = scan_log (suc (length file)) file 0

pub record Wal : Type 0 where
  pub open_now : Bool
  pub file : List ℕ
  pub next_lsn : ℕ
  pub durable_lsn : ℕ

-- The end of `Wal::Open`, of a file that could be opened.
unfoldable pub open_log : List ℕ → DbError × Option Wal
open_log file =
    let (code, last, truncated) = scan file in
    if not (is_ok code) then (code, none) else (
      DbError.ok,
      some (record {
        open_now = true;
        file = file;
        next_lsn = (last + 1) % 2 ^ 64;
        durable_lsn = last;
      }),
    )

-- `Wal::AppendPageImage` of data that is not NULL. The stream takes all bytes (`none`), or it fails
-- after some.
unfoldable pub append_page_image : Option (List ℕ) → ℕ → List ℕ → Wal → DbError × ℕ × Wal
append_page_image outcome page_id payload wal =
    let bytes =
      record_bytes (record { lsn = wal.next_lsn; page_id = page_id; payload = payload }) in
    if not wal.open_now
    then (DbError.bad_state, 0, wal)
    else if not (length payload == image_size)
    then (DbError.invalid_argument, 0, wal)
    else if page_id == invalid_id
    then (DbError.invalid_argument, 0, wal)
    else elim outcome [
      | some part ↦ (DbError.io_error, 0, record wal { file = wal.file ++ part })
      | none ↦ (
        DbError.ok,
        wal.next_lsn,
        record wal { file = wal.file ++ bytes; next_lsn = (wal.next_lsn + 1) % 2 ^ 64 },
      )
    ]

-- `Wal::Flush`, of a stream that flushes or fails.
unfoldable pub flush : Bool → Wal → DbError × Wal
flush flushes wal =
    if not wal.open_now
    then (DbError.bad_state, wal)
    else if not flushes
    then (DbError.io_error, wal)
    else (DbError.ok, record wal { durable_lsn = (wal.next_lsn + (2 ^ 64 - 1)) % 2 ^ 64 })

-- `Wal::Close`
unfoldable pub close_log : Bool → Wal → DbError × Wal
close_log flushes wal =
    let (code, wal') = flush flushes wal in
    if not wal.open_now then (DbError.ok, wal) else (code, record wal' { open_now = false })

-- `Wal::Reset`, where the file can be truncated or not opened.
unfoldable pub reset_log : Bool → Wal → DbError × Wal
reset_log opens wal =
    if not wal.open_now
    then (DbError.bad_state, wal)
    else if not opens
    then (DbError.io_error, wal)
    else (DbError.ok, record wal { file = []; next_lsn = 1; durable_lsn = 0 })

-- `Wal::BeforePageWrite`
unfoldable pub before_page_write : Option (List ℕ) → Bool → Page → Wal → DbError × Wal
before_page_write outcome flushes page wal =
    let (code, lsn, wal') =
      append_page_image outcome page.id (bytes_at page.bytes 0 page_size) wal in
    if page.id == invalid_id
    then (DbError.invalid_argument, wal)
    else if not (is_ok code)
    then (code, wal')
    else flush flushes wal'

-- The page that `Recover` writes for a record.
abbrev pub image : Entry → Page
image e = record { id = e.page_id; dirty = false; bytes = copy (λ _. 0) 0 e.payload }

-- The loop of `Recover` over a storage, with the numbers of `RecoveryStats`.
module _ (disk : Disk) (page_exists : ℕ → disk.World → Bool) where
  unfoldable pub replay : ℕ → List ℕ → ℕ → ℕ → disk.World → DbError × ℕ × ℕ × Bool × disk.World
  replay zero xs last applied w = (DbError.ok, applied, last, false, w)
  replay (suc fuel) xs last applied w = elim (read_record xs) [
    | stop truncated ↦ (DbError.ok, applied, last, truncated, w)
    | corrupt ↦ (DbError.bad_state, 0, 0, false, w)
    | found e rest ↦
        let (code, w') = disk.write_page (image e) w in
        let more = replay fuel rest e.lsn (applied + 1) w' in
        if leb e.lsn last
        then (DbError.bad_state, 0, 0, false, w)
        else if not (page_exists e.page_id w)
        then (DbError.bad_state, 0, 0, false, w)
        else if not (is_ok code)
        then (code, 0, 0, false, w')
        else more
  ]

  -- `Wal::Recover` into a storage that is not NULL: the code, the records applied, the last LSN,
  -- whether the tail is incomplete, and the storage.
  unfoldable pub recover : Wal → disk.World → DbError × ℕ × ℕ × Bool × disk.World
  recover wal w =
      let replayed = replay (suc (length wal.file)) wal.file 0 0 w in
      if not wal.open_now then (DbError.bad_state, 0, 0, false, w) else replayed
