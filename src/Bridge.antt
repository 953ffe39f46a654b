-- ===== src/Bridge.antt =====
-- src/bridge: from the memory statistics of a cgroup to requests for the buffer pool.
pub mod Snapshot
pub mod Policy
pub mod Adapter
pub mod Monitor
pub mod Memory
