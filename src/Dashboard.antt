-- ===== src/Dashboard.antt =====
-- src/dashboard/metrics.c and src/dashboard/dashboard_text.c: one frame of the dashboard.
pub mod Metrics
pub mod Format
pub mod Writer
pub mod Text
pub mod Scaled
pub mod Collected
pub mod Rendered
