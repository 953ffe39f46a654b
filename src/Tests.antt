-- ===== src/Tests.antt =====
-- Runs on concrete data, and the theorems at inputs that meet their hypotheses.
mod Toy
mod Fixed
mod Disk
mod Registry
mod Bridge
mod Cgroup
mod Dashboard
mod Monitor
mod Slotted
mod Storage
mod Pool
mod Wal
mod Router
mod Manager
