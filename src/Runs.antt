-- ===== src/Runs.antt =====
-- internal/runs: one audit executed and recorded in the store.
pub mod Execute
pub mod Recorded
mod Tests
