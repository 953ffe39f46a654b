-- ===== src/Tests/Wal.antt =====
-- A log with two records and a part of a third, and the theorems on it.
use nexus_db.Prelude.{
  ℕ, ◌*◌, ◌≡◌, ◌⊎◌, refl, true, false, none, some, List, [], ◌∷◌, ◌++◌, take, replicate,
  length-replicate, arith,
}
use nexus_db.Db.Status.{DbError}
use nexus_db.Db.Page.{new_page}
use nexus_db.Db.Wal.{
  Entry, Wal, record_bytes, read_record, ReadResult, open_log, scan, scan_log, before_page_write,
  flush, close_log, reset_log,
}
use nexus_db.Db.Wal.Open as Log
use nexus_db.Db.Wal.Header.{Writable}
use nexus_db.Db.Wal.Records.{read_record-record_bytes}
use nexus_db.Db.Wal.Replay.{log_bytes, last_lsn, Increasing, Log}
use nexus_db.Db.Wal.Appends.{Holds, entry_for, before_page_write-Holds}
use nexus_db.Db.Storage.Machine.{Machine}

abbrev logged : ℕ → ℕ → ℕ → Entry
logged lsn id byte = record { lsn = lsn; page_id = id; payload = replicate 4096 byte }

logged_first-Writable : Writable (logged 1 4 7)
logged_first-Writable = record {
  lsn_fits = omega arith;
  id_fits = omega arith;
  one_page = length-replicate {A = ℕ} 4096 7;
}

abbrev records : List Entry
records = logged 1 4 7 ∷ logged 2 4 8 ∷ []

abbrev torn_wal : Wal
torn_wal = record {
  open_now = true;
  file = log_bytes records ++ take 40 (record_bytes (logged 3 5 9));
  next_lsn = 3;
  durable_lsn = 2;
}

-- A storage of six zeroed pages whose streams do not fail.
abbrev six_pages : Machine
six_pages = record {
  store = record { open_now = true; file_size = 6 * 4096; bytes = λ k. 0 };
  wal = torn_wal;
  turn = 0;
  io = λ t. record { stats = true; reads = true; fails_after = none };
  log_io = λ t. (none, true);
}

read_record-record_bytes_example :
    read_record (record_bytes (logged 1 4 7) ++ (1 ∷ [])) ≡ ReadResult.found (logged 1 4 7) (1 ∷ [])
read_record-record_bytes_example =
    read_record-record_bytes (logged 1 4 7) (1 ∷ []) logged_first-Writable

reset_forgets_the_records :
    reset_log true torn_wal
    ≡ (DbError.ok, record { open_now = true; file = []; next_lsn = 1; durable_lsn = 0 })
unfolding reset_log
reset_forgets_the_records = refl

closed_log_refuses : (flush true (close_log true torn_wal).1).0 ≡ DbError.bad_state
unfolding flush close_log
closed_log_refuses = refl

abbrev empty_wal : Wal
empty_wal = record { open_now = true; file = []; next_lsn = 1; durable_lsn = 0 }

empty_wal-Holds : Holds empty_wal []
unfolding log_bytes last_lsn Increasing
empty_wal-Holds = record {
  is_open = refl;
  file = refl;
  writable = tt;
  increasing = tt;
  next = refl;
}

before_page_write-Holds_example :
    let (code, wal') = before_page_write none true (new_page 5) empty_wal in
    ((code ≡ DbError.ok)
      × Holds wal' ([] ++ (entry_for empty_wal (new_page 5) ∷ []))
      × (wal'.durable_lsn ≡ 1))
    ⊎ ((code ≡ DbError.io_error) × (wal'.durable_lsn ≡ 0))
before_page_write-Holds_example =
    before_page_write-Holds none true (new_page 5) empty_wal [] empty_wal-Holds (omega arith)
      (omega arith)

-- A log that can be written but not read is emptied by `Wal::Open`, which answers kOk.
unreadable_log_is_emptied :
    Log.open_path
      (record { named = true; opens = false; looks = true; creates = true; reopens = true })
      (some (log_bytes (logged 1 4 7 ∷ [])))
    ≡ (
      DbError.ok,
      some (record { open_now = true; file = []; next_lsn = 1; durable_lsn = 0 }),
      some [],
    )
unfolding Log.open_path Log.open_file open_log scan scan_log read_record
unreadable_log_is_emptied = refl
