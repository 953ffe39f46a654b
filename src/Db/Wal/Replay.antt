-- ===== src/Db/Wal/Replay.antt =====
-- A log of appended records whose last one may be cut short: what `Scan` and `Recover` make of it.
use nexus_db.Prelude.{
  ℕ, zero, suc, ◌+◌, ◌≤◌, ◌<◌, ◌≡◌, refl, ap, ◌∙◌, false, not, List, [], ◌∷◌, ◌++◌, leb, ◌==◌,
  length, take, length-append, All, arith,
}
use nexus_db.Db.Status.{DbError}
use nexus_db.Db.Page.{bytes_at}
use nexus_db.Db.Page.Access.{length-bytes_at}
use nexus_db.Db.Wal.{
  Entry, record_bytes, header_of, ReadResult, read_record, record_header, scan_log, scan,
}
use nexus_db.Db.Wal.Header.{Writable}
use nexus_db.Db.Wal.Records.{append_assoc, read_record-record_bytes, read_record-torn}

-- The bytes of the records, one after the other.
unfoldable pub log_bytes : List Entry → List ℕ
log_bytes [] = []
log_bytes (e ∷ es) = record_bytes e ++ log_bytes es

unfoldable pub last_lsn : List Entry → ℕ → ℕ
last_lsn [] last = last
last_lsn (e ∷ es) last = last_lsn es e.lsn

-- LSNs that grow from `last`.
unfoldable pub Increasing : ℕ → List Entry → Type 0
Increasing last [] = Unit
Increasing last (e ∷ es) = (last < e.lsn) × Increasing e.lsn es

-- A log: the records, and the first `cut` bytes of one more.
pub record Log (es : List Entry) (tail : Entry) (cut : ℕ) : Type 0 where
  pub writable : All Writable es
  pub increasing : Increasing 0 es
  pub tail_writable : Writable tail
  pub partial : cut < length (record_bytes tail)

pub length-record_bytes : (e : Entry) → length (record_bytes e) ≡ record_header + length e.payload
unfolding record_bytes
length-record_bytes e =
    let size = length-bytes_at (header_of e) 0 record_header in
    let sum = length-append (bytes_at (header_of e) 0 record_header) e.payload in omega arith

pub length-log_bytes : (es : List Entry) → length es ≤ length (log_bytes es)
unfolding log_bytes
length-log_bytes [] = omega arith
length-log_bytes (e ∷ es) =
    let rest = length-log_bytes es in
    let one = length-record_bytes e in
    let sum = length-append (record_bytes e) (log_bytes es) in omega arith

module _ (tail : Entry) (cut : ℕ) (ok : Writable tail)
    (partial : cut < length (record_bytes tail)) where
  unfoldable pub torn : List ℕ
  torn = take cut (record_bytes tail)

  pub read_next :
      (e : Entry) (es : List Entry)
      → Writable e
      → read_record (log_bytes (e ∷ es) ++ torn) ≡ ReadResult.found e (log_bytes es ++ torn)
  unfolding log_bytes
  read_next e es w =
      ap read_record (append_assoc (record_bytes e) (log_bytes es) torn)
      ∙ read_record-record_bytes e (log_bytes es ++ torn) w

  scan_log-records :
      (es : List Entry) (fuel last : ℕ)
      → length es < fuel
      → All Writable es
      → Increasing last es
      → scan_log fuel (log_bytes es ++ torn) last ≡ (DbError.ok, last_lsn es last, not (cut == 0))
  unfolding scan_log last_lsn Increasing torn log_bytes
  scan_log-records es zero last lt w inc = absurd (omega arith)
  scan_log-records [] (suc fuel) last lt w inc =
      let e = read_record-torn tail cut ok partial in rw (e, scan_log) refl
  scan_log-records (e ∷ es) (suc fuel) last lt w inc =
      let rest = scan_log-records es fuel e.lsn (omega arith) w.1 inc.1 in
      let grows : leb e.lsn last ≡ false = let up = inc.0 in ground arith in
      let next = read_next e es w.0 in rw (next, grows, scan_log) rest

-- `Scan` of a log with an incomplete tail reads all whole records and reports the tail.
pub scan-log_bytes :
    (es : List Entry) (tail : Entry) (cut : ℕ)
    → Log es tail cut
    → scan (log_bytes es ++ take cut (record_bytes tail))
      ≡ (DbError.ok, last_lsn es 0, not (cut == 0))
unfolding scan torn
scan-log_bytes es tail cut l =
    let file = log_bytes es ++ take cut (record_bytes tail) in
    let long = length-log_bytes es in
    let sum = length-append (log_bytes es) (take cut (record_bytes tail)) in
    scan_log-records tail cut l.tail_writable l.partial es (suc (length file)) 0 (omega arith)
      l.writable l.increasing
