-- ===== src/Manager.antt =====
-- src/manager/manager.cpp: what the manager keeps of a container, and what it does with it.
pub mod Meta
pub mod Lifecycle
