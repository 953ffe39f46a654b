-- ===== src/Db/Wal/Records.antt =====
-- A record that is appended is read again, and a record that is cut short ends the log.
use nexus_db.Prelude.{
  ℕ, zero, suc, ◌+◌, ◌-◌, ◌≤◌, ◌<◌, ◌≡◌, refl, sym, ap, ◌∙◌, inl, inr, true, false, not, List, [],
  ◌∷◌, ◌++◌, ltb, ◌==◌, length, get_or, take, take_self, length-append, Bool-cases, arith,
}
use nexus_db.Db.Page.{Bytes, bytes_at}
use nexus_db.Db.Page.Access.{length-bytes_at, get_or-bytes_at}
use nexus_db.Db.Wal.{
  read_le, crc32, Entry, header_of, record_bytes, ReadResult, skip, header_valid, read_record,
  record_header, image_size, checksum_offset,
}
use nexus_db.Db.Wal.Fields.{read_le-eq}
use nexus_db.Db.Wal.Header.{Writable, header-valid, header-lsn, header-id, header-crc}

eq_self : (a : ℕ) → (a == a) ≡ true
eq_self a = ground arith

take-append : (xs ys : List ℕ) (n : ℕ) → n ≡ length xs → take n (xs ++ ys) ≡ xs
take-append [] ys zero h = refl
take-append [] ys (suc n) h = absurd (omega arith)
take-append (x ∷ xs) ys zero h = absurd (omega arith)
take-append (x ∷ xs) ys (suc n) h = ap (λ l. x ∷ l) (take-append xs ys n (omega arith))

skip-append : (xs ys : List ℕ) (n : ℕ) → n ≡ length xs → skip n (xs ++ ys) ≡ ys
unfolding skip
skip-append [] ys zero h = refl
skip-append [] ys (suc n) h = absurd (omega arith)
skip-append (x ∷ xs) ys zero h = absurd (omega arith)
skip-append (x ∷ xs) ys (suc n) h = skip-append xs ys n (omega arith)

take-append_past :
    (xs ys : List ℕ) (n : ℕ) → length xs ≤ n → take n (xs ++ ys) ≡ xs ++ take (n - length xs) ys
take-append_past [] ys n h = ap (λ m. take m ys) (omega arith)
take-append_past (x ∷ xs) ys zero h = absurd (omega arith)
take-append_past (x ∷ xs) ys (suc n) h =
    let less : n - length xs ≡ suc n - suc (length xs) = omega arith in
    ap (λ l. x ∷ l) (take-append_past xs ys n (omega arith) ∙ ap (λ m. xs ++ take m ys) less)

length-take : (n : ℕ) (xs : List ℕ) → n ≤ length xs → length (take n xs) ≡ n
length-take zero xs h = refl
length-take (suc n) [] h = absurd (omega arith)
length-take (suc n) (x ∷ xs) h = ap suc (length-take n xs (omega arith))

take-bytes_at : (d : Bytes) (m n i : ℕ) → m ≤ n → take m (bytes_at d i n) ≡ bytes_at d i m
unfolding bytes_at
take-bytes_at d zero n i h = refl
take-bytes_at d (suc m) zero i h = absurd (omega arith)
take-bytes_at d (suc m) (suc n) i h = ap (λ l. d i ∷ l) (take-bytes_at d m n (i + 1) (omega arith))

header_valid-eq :
    (h h' : Bytes) → ((k : ℕ) → k < record_header → h' k ≡ h k) → header_valid h' ≡ header_valid h
unfolding header_valid
header_valid-eq h h' same =
    let m0 = same 0 (omega arith) in
    let m1 = same 1 (omega arith) in
    let m2 = same 2 (omega arith) in
    let m3 = same 3 (omega arith) in
    let v = read_le-eq 2 h h' 4 (λ k lo hi. same k (omega arith)) in
    let t = read_le-eq 2 h h' 6 (λ k lo hi. same k (omega arith)) in
    let n = read_le-eq 4 h h' 20 (λ k lo hi. same k (omega arith)) in
    let i = read_le-eq 4 h h' 16 (λ k lo hi. same k (omega arith)) in
    rw (m0, m1, m2, m3, v, t, n, i) refl

-- A valid header and what follows it.
module _ (h : Bytes) (rest : List ℕ) (is_valid : header_valid h ≡ true) where
  header : List ℕ
  header = bytes_at h 0 record_header

  parsed : Bytes
  parsed = λ i. get_or header i 0

  parsed-eq : (k : ℕ) → k < record_header → parsed k ≡ h k
  unfolding parsed header
  parsed-eq k lt = get_or-bytes_at h 0 record_header k lt ∙ ap h (omega arith)

  read_record-short : length rest < image_size → read_record (header ++ rest) ≡ ReadResult.stop true
  unfolding read_record header parsed
  read_record-short short =
      let size = length-bytes_at h 0 record_header in
      let head = take-append header rest record_header (sym size) in
      let tail = skip-append header rest record_header (sym size) in
      let good = header_valid-eq h parsed parsed-eq ∙ is_valid in
      let all = take_self image_size rest (omega arith) in
      let less : ltb (length rest) image_size ≡ true = ground arith in
      rw (head, tail, all, size, good, less) refl

  read_record-whole :
      (payload : List ℕ) (more : List ℕ)
      → rest ≡ payload ++ more
      → length payload ≡ image_size
      → read_le 4 h checksum_offset ≡ crc32 (bytes_at h 0 checksum_offset) payload
      → read_record (header ++ rest)
        ≡ ReadResult.found
            (record { lsn = read_le 8 h 8; page_id = read_le 4 h 16; payload = payload })
            more
  unfolding read_record header parsed
  read_record-whole payload more e len sum =
      let size = length-bytes_at h 0 record_header in
      let head = take-append header rest record_header (sym size) in
      let tail = skip-append header rest record_header (sym size) ∙ e in
      let good = header_valid-eq h parsed parsed-eq ∙ is_valid in
      let body = take-append payload more image_size (sym len) in
      let next = skip-append payload more image_size (sym len) in
      let signed = take-bytes_at h checksum_offset record_header 0 (omega arith) in
      let lsn = read_le-eq 8 h parsed 8 (λ k lo hi. parsed-eq k (omega arith)) in
      let id = read_le-eq 4 h parsed 16 (λ k lo hi. parsed-eq k (omega arith)) in
      let crc = read_le-eq 4 h parsed checksum_offset (λ k lo hi. parsed-eq k (omega arith)) in
      let same = eq_self (crc32 (bytes_at h 0 checksum_offset) payload) in
      rw (head, tail, size, good, body, next, len, signed, lsn, id, crc, sum, same) refl

pub append_assoc : (xs ys zs : List ℕ) → (xs ++ ys) ++ zs ≡ xs ++ (ys ++ zs)
append_assoc [] ys zs = refl
append_assoc (x ∷ xs) ys zs = ap (λ l. x ∷ l) (append_assoc xs ys zs)

read_record-few :
    (xs : List ℕ) (n : ℕ)
    → length xs ≡ n
    → n < record_header
    → read_record xs ≡ ReadResult.stop (not (n == 0))
unfolding read_record
read_record-few xs n len lt =
    let all = take_self record_header xs (omega arith) in
    elim (Bool-cases (n == 0)) [
      | inl e ↦ rw (all, len, e) refl
      | inr e ↦ let less : ltb n record_header ≡ true = ground arith in rw (all, len, e, less) refl
    ]

-- A record that was appended is read back, with what follows it in the file.
pub read_record-record_bytes :
    (e : Entry) (rest : List ℕ)
    → Writable e
    → read_record (record_bytes e ++ rest) ≡ ReadResult.found e rest
unfolding record_bytes bytes_at header
read_record-record_bytes e rest ok =
    let h = header_of e in
    let assoc = append_assoc (bytes_at h 0 record_header) e.payload rest in
    let lsn = header-lsn e ok in
    let id = header-id e ok in
    ap read_record assoc
    ∙ read_record-whole h (e.payload ++ rest) (header-valid e ok) e.payload rest refl ok.one_page
        (header-crc e ok)
    ∙ rw (lsn, id) refl

-- A record that is cut short ends the log, and is told from a clean end.
pub read_record-torn :
    (e : Entry) (n : ℕ)
    → Writable e
    → n < length (record_bytes e)
    → read_record (take n (record_bytes e)) ≡ ReadResult.stop (not (n == 0))
unfolding record_bytes bytes_at header
read_record-torn e n ok lt =
    let h = header_of e in
    let xs = bytes_at h 0 record_header ++ e.payload in
    let size = length-bytes_at h 0 record_header in
    let full = ok.one_page in
    let sum = length-append (bytes_at h 0 record_header) e.payload in
    elim (Bool-cases (ltb n record_header)) [
      | inl few ↦
          let small : n < record_header = ground arith in
          read_record-few (take n xs) n (length-take n xs (omega arith)) small
      | inr many ↦
          let m = n - record_header in
          let cut = take-append_past (bytes_at h 0 record_header) e.payload n (ground arith) in
          let left : n - length (bytes_at h 0 record_header) ≡ m = omega arith in
          let short = length-take m e.payload (ground arith) in
          let some_bytes : (n == 0) ≡ false = ground arith in
          ap read_record (cut ∙ ap (λ k. bytes_at h 0 record_header ++ take k e.payload) left)
          ∙ read_record-short h (take m e.payload) (header-valid e ok) (ground arith)
          ∙ rw some_bytes refl
    ]
