-- ===== src/Rc.antt =====
-- The result codes that every C module returns (include/container/container.h, `nexus_rc`).
use nexus_db.Prelude.{◌≡◌, Bool, true, false, arith}

pub data Rc : Type 0 where
  ok invalid not_found exists illegal_state nomem process unsupported : Rc

-- `rc == NEXUS_OK`
abbrev pub is_ok : Rc → Bool
is_ok Rc.ok = true
is_ok _ = false

pub is_ok→ok : (rc : Rc) → is_ok rc ≡ true → rc ≡ Rc.ok
is_ok→ok rc h = ground arith
