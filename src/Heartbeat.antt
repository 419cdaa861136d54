-- ===== src/Heartbeat.antt =====
-- pkg/heartbeat: when a heartbeat runs, and what becomes of its answer.
pub mod Schedule
pub mod Policy
mod Tests
