-- ===== src/Db/Wal/Header.antt =====
-- The header of a record, field by field.
use nexus_db.Prelude.{ℕ, ◌<◌, ◌^◌, ◌≡◌, refl, sym, ap, ◌∙◌, subst, true, false, ◌==◌, length, arith}
use nexus_db.Db.Page.{Bytes, put, bytes_at, invalid_id}
use nexus_db.Db.Page.Access.{bytes_at-eq}
use nexus_db.Db.Wal.{
  write_le, read_le, crc32, Entry, unsigned_header, header_of, header_valid, image_size,
  checksum_offset, image_type,
}
use nexus_db.Db.Wal.Fields.{bound, write_le-Apart, read_le-write_le-Apart, read_le-write_le}

-- What `AppendPageImage` can write: its fields fit, and the payload is one page.
pub record Writable (e : Entry) : Type 0 where
  pub lsn_fits : e.lsn < 2 ^ 64
  pub id_fits : e.page_id < invalid_id
  pub one_page : length e.payload ≡ image_size

module _ (e : Entry) (ok : Writable e) where
  magic : Bytes
  magic = put (put (put (put (λ _. 0) 0 0x4e) 1 0x57) 2 0x41) 3 0x31

  h1 : Bytes
  h1 = write_le 2 magic 4 1

  h2 : Bytes
  h2 = write_le 2 h1 6 image_type

  h3 : Bytes
  h3 = write_le 8 h2 8 e.lsn

  h4 : Bytes
  h4 = write_le 4 h3 16 e.page_id

  h5 : Bytes
  h5 = write_le 4 h4 20 image_size

  crc : ℕ
  crc = crc32 (bytes_at h5 0 checksum_offset) e.payload

  h6 : Bytes
  h6 = write_le 4 h5 checksum_offset crc

  header_of-h6 : header_of e ≡ h6
  unfolding header_of unsigned_header h6 h5 h4 h3 h2 h1 magic crc
  header_of-h6 = refl

  field_version : read_le 2 h6 4 ≡ 1
  unfolding h6 h5 h4 h3 h2 h1 bound
  field_version =
      read_le-write_le-Apart 2 4 h5 checksum_offset crc 4 (omega arith)
      ∙ read_le-write_le-Apart 2 4 h4 20 image_size 4 (omega arith)
      ∙ read_le-write_le-Apart 2 4 h3 16 e.page_id 4 (omega arith)
      ∙ read_le-write_le-Apart 2 8 h2 8 e.lsn 4 (omega arith)
      ∙ read_le-write_le-Apart 2 2 h1 6 image_type 4 (omega arith)
      ∙ read_le-write_le 2 magic 4 1 (omega arith)

  field_type : read_le 2 h6 6 ≡ image_type
  unfolding h6 h5 h4 h3 h2 bound
  field_type =
      read_le-write_le-Apart 2 4 h5 checksum_offset crc 6 (omega arith)
      ∙ read_le-write_le-Apart 2 4 h4 20 image_size 6 (omega arith)
      ∙ read_le-write_le-Apart 2 4 h3 16 e.page_id 6 (omega arith)
      ∙ read_le-write_le-Apart 2 8 h2 8 e.lsn 6 (omega arith)
      ∙ read_le-write_le 2 h1 6 image_type (omega arith)

  field_lsn : read_le 8 h6 8 ≡ e.lsn
  unfolding h6 h5 h4 h3 bound
  field_lsn =
      let fits = ok.lsn_fits in
      read_le-write_le-Apart 8 4 h5 checksum_offset crc 8 (omega arith)
      ∙ read_le-write_le-Apart 8 4 h4 20 image_size 8 (omega arith)
      ∙ read_le-write_le-Apart 8 4 h3 16 e.page_id 8 (omega arith)
      ∙ read_le-write_le 8 h2 8 e.lsn (omega arith)

  field_id : read_le 4 h6 16 ≡ e.page_id
  unfolding h6 h5 h4 bound
  field_id =
      let fits = ok.id_fits in
      read_le-write_le-Apart 4 4 h5 checksum_offset crc 16 (omega arith)
      ∙ read_le-write_le-Apart 4 4 h4 20 image_size 16 (omega arith)
      ∙ read_le-write_le 4 h3 16 e.page_id (omega arith)

  field_size : read_le 4 h6 20 ≡ image_size
  unfolding h6 h5 bound
  field_size =
      read_le-write_le-Apart 4 4 h5 checksum_offset crc 20 (omega arith)
      ∙ read_le-write_le 4 h4 20 image_size (omega arith)

  crc_small : crc < 2 ^ 32
  unfolding crc crc32
  crc_small = omega arith

  field_crc : read_le 4 h6 checksum_offset ≡ crc
  unfolding h6 bound
  field_crc = let small = crc_small in read_le-write_le 4 h5 checksum_offset crc (omega arith)

  magic_kept : (j : ℕ) → j < 4 → h6 j ≡ magic j
  unfolding h6 h5 h4 h3 h2 h1
  magic_kept j lt =
      write_le-Apart 4 h5 checksum_offset crc j (omega arith)
      ∙ write_le-Apart 4 h4 20 image_size j (omega arith)
      ∙ write_le-Apart 4 h3 16 e.page_id j (omega arith)
      ∙ write_le-Apart 8 h2 8 e.lsn j (omega arith)
      ∙ write_le-Apart 2 h1 6 image_type j (omega arith)
      ∙ write_le-Apart 2 magic 4 1 j (omega arith)

  signed_part : bytes_at h6 0 checksum_offset ≡ bytes_at h5 0 checksum_offset
  unfolding h6
  signed_part =
      bytes_at-eq h5 (write_le 4 h5 checksum_offset crc) 0 checksum_offset
        (λ k lo hi. write_le-Apart 4 h5 checksum_offset crc k (omega arith))

  valid : header_valid h6 ≡ true
  unfolding header_valid magic
  valid =
      let m0 = magic_kept 0 (omega arith) in
      let m1 = magic_kept 1 (omega arith) in
      let m2 = magic_kept 2 (omega arith) in
      let m3 = magic_kept 3 (omega arith) in
      let named : (e.page_id == invalid_id) ≡ false = let fits = ok.id_fits in ground arith in
      rw (m0, m1, m2, m3, field_version, field_type, field_size, field_id, named) refl

  pub header-valid : header_valid (header_of e) ≡ true
  header-valid = subst (λ h. header_valid h ≡ true) (sym header_of-h6) valid

  pub header-lsn : read_le 8 (header_of e) 8 ≡ e.lsn
  header-lsn = subst (λ h. read_le 8 h 8 ≡ e.lsn) (sym header_of-h6) field_lsn

  pub header-id : read_le 4 (header_of e) 16 ≡ e.page_id
  header-id = subst (λ h. read_le 4 h 16 ≡ e.page_id) (sym header_of-h6) field_id

  signed : read_le 4 h6 checksum_offset ≡ crc32 (bytes_at h6 0 checksum_offset) e.payload
  unfolding crc
  signed = field_crc ∙ ap (λ xs. crc32 xs e.payload) (sym signed_part)

  pub header-crc :
      read_le 4 (header_of e) checksum_offset
      ≡ crc32 (bytes_at (header_of e) 0 checksum_offset) e.payload
  header-crc =
      subst (λ h. read_le 4 h checksum_offset ≡ crc32 (bytes_at h 0 checksum_offset) e.payload)
        (sym header_of-h6) signed
