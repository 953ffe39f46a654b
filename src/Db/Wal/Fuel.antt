-- ===== src/Db/Wal/Fuel.antt =====
-- The loop of `Scan` ends: a record that is read leaves a shorter stream.
use nexus_db.Prelude.{
  ℕ, zero, suc, ◌-◌, ◌≤◌, ◌<◌, ◌≡◌, refl, ap, ◌⊎◌, inl, inr, Bool, true, false, not, List, [], ◌∷◌,
  ltb, leb, ◌==◌, if◌then◌else◌, length, take, get_or, arith,
}
use nexus_db.Db.Status.{DbError}
use nexus_db.Db.Page.{Bytes}
use nexus_db.Db.Wal.{
  Entry, ReadResult, read_record, record_header, image_size, checksum_offset, header_valid, read_le,
  crc32, scan_log, skip,
}

length-skip : (n : ℕ) (xs : List ℕ) → length (skip n xs) ≡ length xs - n
unfolding skip
length-skip zero xs = omega arith
length-skip (suc n) [] = omega arith
length-skip (suc n) (x ∷ xs) = let rest = length-skip n xs in omega arith

result_cases :
    (r : ReadResult)
    → ((t : Bool) × (r ≡ ReadResult.stop t))
      ⊎ ((r ≡ ReadResult.corrupt) ⊎ ((e : Entry) × (rest : List ℕ) × (r ≡ ReadResult.found e rest)))
result_cases (ReadResult.stop t) = inl (t, refl)
result_cases ReadResult.corrupt = inr (inl refl)
result_cases (ReadResult.found e rest) = inr (inr (e, rest, refl))

-- The length of the stream after a record.
left : ReadResult → ℕ
left (ReadResult.stop t) = 0
left ReadResult.corrupt = 0
left (ReadResult.found e rest) = length rest

-- Whatever the tests of `ReadRecord` say.
left-tests :
    (empty few bad short wrong : Bool) (e : Entry) (rest : List ℕ) (n : ℕ)
    → length rest ≤ n
    → left (
        if empty
        then ReadResult.stop false
        else if few
        then ReadResult.stop true
        else if bad
        then ReadResult.corrupt
        else if short
        then ReadResult.stop true
        else if wrong
        then ReadResult.corrupt
        else ReadResult.found e rest)
      ≤ n
unfolding left
left-tests empty few bad short wrong e rest n h = ground arith

left-read_record : (xs : List ℕ) → left (read_record xs) ≤ length xs - record_header
unfolding read_record
left-read_record xs =
    let first = length-skip record_header xs in
    let second = length-skip image_size (skip record_header xs) in
    let header = take record_header xs in
    let h : Bytes = λ i. get_or header i 0 in
    let payload = take image_size (skip record_header xs) in
    left-tests (length header == 0) (ltb (length header) record_header) (not (header_valid h))
      (ltb (length payload) image_size)
      (not (read_le 4 h checksum_offset == crc32 (take checksum_offset header) payload))
      (record { lsn = read_le 8 h 8; page_id = read_le 4 h 16; payload = payload })
      (skip image_size (skip record_header xs)) (length xs - record_header) (omega arith)

read_record-shorter :
    (xs : List ℕ) (e : Entry) (rest : List ℕ)
    → read_record xs ≡ ReadResult.found e rest
    → length rest < length xs
unfolding left read_record
read_record-shorter [] e rest h = cc
read_record-shorter (x ∷ xs) e rest h =
    let le = left-read_record (x ∷ xs) in
    let same : left (read_record (x ∷ xs)) ≡ length rest = ap left h in omega arith

-- With more rounds than bytes the loop of `Scan` has come to its end.
pub scan_log_enough :
    (fuel : ℕ) (xs : List ℕ) (last : ℕ)
    → length xs < fuel
    → scan_log (suc fuel) xs last ≡ scan_log fuel xs last
unfolding scan_log
scan_log_enough zero xs last h = absurd (omega arith)
scan_log_enough (suc fuel) xs last h = elim (result_cases (read_record xs)) [
  | inl (t, e) ↦ rw (e, scan_log) refl
  | inr (inl e) ↦ rw (e, scan_log) refl
  | inr (inr (x, rest, e)) ↦
      let shorter = read_record-shorter xs x rest e in
      let same = scan_log_enough fuel rest x.lsn (omega arith) in
      rw (e, scan_log)
        (ap (λ r. if leb x.lsn last then (DbError.bad_state, last, false) else r) same)
]
