-- ===== src/Finding.antt =====
-- internal/finding/finding.go: findings and the set that keeps them unique and verified.
pub mod Severity
pub mod Model
pub mod Set
pub mod Key
pub mod Merge
pub mod Order
pub mod Summary
pub mod Verify
mod Tests
