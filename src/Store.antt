-- ===== src/Store.antt =====
-- internal/store: the tables of runs, findings and traces, and how an audit is recorded in them.
pub mod Model
pub mod Write
pub mod Read
mod Rows
pub mod Consistent
pub mod Invariant
pub mod Steps
pub mod Reach
pub mod Replaced
pub mod Atomic
pub mod Keeps
pub mod Discarded
pub mod History
pub mod Succeeds
mod Tests
