-- ===== src/Compare.antt =====
-- internal/report/compare.go: what changed between two report documents.
pub mod Model
pub mod Findings
pub mod Tables
pub mod Whole
pub mod Accounts
pub mod Truth
pub mod Reading
pub mod Columns
pub mod Same
pub mod Ties
mod Tests
