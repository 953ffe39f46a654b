-- ===== src/Db/Wal/Appends.antt =====
-- The write-ahead rule on the log's side: `BeforePageWrite` that answers kOk left the image of the
-- page as the last record, and what was logged before as it was.
use nexus_db.Prelude.{
  ℕ, ◌+◌, ◌-◌, ◌%◌, ◌^◌, ◌<◌, ◌≡◌, refl, sym, ap, ◌∙◌, ◌⊎◌, inl, inr, Bool, true, false, Option,
  List, [], ◌∷◌, ◌++◌, ◌==◌, Bool-cases, Option-cases, All, arith,
}
use nexus_db.Db.Status.{DbError}
use nexus_db.Db.Page.{Page, bytes_at, invalid_id, page_size}
use nexus_db.Db.Page.Access.{length-bytes_at}
use nexus_db.Db.Wal.{
  Entry, Wal, record_bytes, append_page_image, before_page_write, flush, reset_log,
}
use nexus_db.Db.Wal.Header.{Writable}
use nexus_db.Db.Wal.Records.{append_assoc}
use nexus_db.Db.Wal.Replay.{log_bytes, last_lsn, Increasing}

-- An open log of these records, with LSNs left.
pub record Holds (wal : Wal) (es : List Entry) : Type 0 where
  pub is_open : wal.open_now ≡ true
  pub file : wal.file ≡ log_bytes es
  pub writable : All Writable es
  pub increasing : Increasing 0 es
  pub next : wal.next_lsn ≡ last_lsn es 0 + 1

abbrev pub entry_for : Wal → Page → Entry
entry_for wal page = record {
  lsn = wal.next_lsn;
  page_id = page.id;
  payload = bytes_at page.bytes 0 page_size;
}

append_nil : (xs : List ℕ) → xs ++ [] ≡ xs
append_nil [] = refl
append_nil (x ∷ xs) = ap (λ l. x ∷ l) (append_nil xs)

log_bytes-append :
    (es : List Entry) (e : Entry) → log_bytes (es ++ (e ∷ [])) ≡ log_bytes es ++ record_bytes e
unfolding log_bytes
log_bytes-append [] e = append_nil (record_bytes e)
log_bytes-append (x ∷ es) e =
    ap (λ l. record_bytes x ++ l) (log_bytes-append es e)
    ∙ sym (append_assoc (record_bytes x) (log_bytes es) (record_bytes e))

last_lsn-append : (es : List Entry) (e : Entry) (last : ℕ) → last_lsn (es ++ (e ∷ [])) last ≡ e.lsn
unfolding last_lsn
last_lsn-append [] e last = refl
last_lsn-append (x ∷ es) e last = last_lsn-append es e x.lsn

Increasing-append :
    (es : List Entry) (e : Entry) (last : ℕ)
    → Increasing last es
    → last_lsn es last < e.lsn
    → Increasing last (es ++ (e ∷ []))
unfolding Increasing last_lsn
Increasing-append [] e last inc lt = (lt, tt)
Increasing-append (x ∷ es) e last inc lt = (inc.0, Increasing-append es e x.lsn inc.1 lt)

All-append :
    (es : List Entry) (e : Entry) → All Writable es → Writable e → All Writable (es ++ (e ∷ []))
All-append [] e h w = (w, tt)
All-append (x ∷ es) e h w = (h.0, All-append es e h.1 w)

-- A reset that answers kOk leaves an open log of no records, whatever was in it.
reset_log-Holds :
    (opens : Bool) (wal : Wal)
    → (reset_log opens wal).0 ≡ DbError.ok
    → Holds (reset_log opens wal).1 []
unfolding reset_log log_bytes last_lsn Increasing
reset_log-Holds opens wal = elim (Bool-cases wal.open_now) [
  | inr e ↦ simp e (λ ok. cc)
  | inl e ↦ elim (Bool-cases opens) [
    | inr e1 ↦ simp (e, e1) (λ ok. cc)
    | inl e1 ↦
        simp (e, e1)
          (λ ok. record {
            is_open = refl;
            file = refl;
            writable = tt;
            increasing = tt;
            next = refl;
          })
  ]
]

-- `BeforePageWrite` of a valid page on an open log of records whose LSNs are not used up. With kOk
-- the log is that of the same records and the page's image, which is durable; a full disk gives
-- kIoError.
pub before_page_write-Holds :
    (outcome : Option (List ℕ)) (flushes : Bool) (page : Page) (wal : Wal) (es : List Entry)
    → Holds wal es
    → wal.next_lsn + 1 < 2 ^ 64
    → page.id < invalid_id
    → let (code, wal') = before_page_write outcome flushes page wal in
      ((code ≡ DbError.ok)
        × Holds wal' (es ++ (entry_for wal page ∷ []))
        × (wal'.durable_lsn ≡ wal.next_lsn))
      ⊎ ((code ≡ DbError.io_error) × (wal'.durable_lsn ≡ wal.durable_lsn))
unfolding before_page_write append_page_image flush
before_page_write-Holds outcome flushes page wal es h room valid =
    let size = length-bytes_at page.bytes 0 page_size in
    let named : (page.id == invalid_id) ≡ false = ground arith in
    let is_open = h.is_open in
    let e = entry_for wal page in
    let next = h.next in
    let wraps : (wal.next_lsn + 1) % 2 ^ 64 ≡ wal.next_lsn + 1 = omega arith in
    elim (Option-cases outcome) [
      | inr (part, failed) ↦ rw (is_open, size, named, failed) (inr (refl, refl))
      | inl whole ↦ elim (Bool-cases flushes) [
        | inr bad ↦ rw (is_open, size, named, whole, bad, is_open) (inr (refl, refl))
        | inl good ↦
            rw (is_open, size, named, whole, good, is_open)
              (inl (
                refl,
                record {
                  is_open = refl;
                  file = ap (λ l. l ++ record_bytes e) h.file ∙ sym (log_bytes-append es e);
                  writable =
                      All-append es e h.writable
                        (record { lsn_fits = omega arith; id_fits = valid; one_page = size });
                  increasing = Increasing-append es e 0 h.increasing (omega arith);
                  next = wraps ∙ ap (λ n. n + 1) (sym (last_lsn-append es e 0));
                },
                ap (λ n. (n + (2 ^ 64 - 1)) % 2 ^ 64) wraps ∙ omega arith,
              ))
      ]
    ]
