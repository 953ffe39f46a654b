-- ===== src/Db/Status.antt =====
-- `DbError` of include/common/error.h. A `Status` is its code here: the message is only for
-- display.
use nexus_db.Prelude.{◌≡◌, Bool, true, false, arith}

pub data DbError : Type 0 where
  ok invalid_argument not_found io_error bad_state buffer_full out_of_memory : DbError

-- `Status::ok`
abbrev pub is_ok : DbError → Bool
is_ok DbError.ok = true
is_ok _ = false

pub is_ok→ok : (code : DbError) → is_ok code ≡ true → code ≡ DbError.ok
is_ok→ok code h = ground arith
