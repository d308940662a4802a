-- ===== src/Eval.antt =====
-- internal/eval: a manifest of planted defects, and what a run is credited with.
pub mod Manifest
pub mod Valid
pub mod Match
pub mod Score
pub mod Ledger
pub mod Aggregate
mod Tests
