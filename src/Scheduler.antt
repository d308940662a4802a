-- ===== src/Scheduler.antt =====
-- internal/api/scheduler.go: the clock that starts due audits and discards old data.
pub mod Sweep
pub mod Firing
pub mod Swept
pub mod Discard
mod Tests
