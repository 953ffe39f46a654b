-- ===== src/Container.antt =====
-- src/container/container.c: the container registry and its lifecycle.
pub mod Types
pub mod Host
pub mod Registry
pub mod Create
pub mod Adopt
pub mod Launch
pub mod Teardown
pub mod Calls
pub mod Updates
pub mod Touches
pub mod Lookup
pub mod Machine
pub mod Records
pub mod WellFormed
pub mod Pids
pub mod Failure
pub mod Restore
pub mod Report
