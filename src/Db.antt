-- ===== src/Db.antt =====
-- src/db: the database engine, from its pages up.
pub mod Status
pub mod Page
pub mod Slotted
pub mod Disk
pub mod Pool
pub mod Wal
pub mod Opening
pub mod Storage
