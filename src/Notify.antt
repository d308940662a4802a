-- ===== src/Notify.antt =====
-- internal/notify: who is told about an audit, and how often it is tried.
pub mod Sink
pub mod Sending
pub mod Regressed
mod Tests
