-- ===== src/Db/Opening.antt =====
-- What the file system does for an `Open`: whether the path is not empty, the file that is there
-- opens for reading and writing, `exists` answers, an empty file can be made, and that opens again.
use nexus_db.Prelude.{Bool}

pub record Opening : Type 0 where
  pub named : Bool
  pub opens : Bool
  pub looks : Bool
  pub creates : Bool
  pub reopens : Bool
