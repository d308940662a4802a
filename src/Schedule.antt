-- ===== src/Schedule.antt =====
-- internal/schedule/schedule.go: when an audit is next due.
pub mod Spec
pub mod First
pub mod Next
pub mod Names
pub mod Tests
