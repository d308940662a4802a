-- ===== src/Rules.antt =====
-- internal/rules: the rules of a customer, and which tables they apply to.
pub mod Glob
pub mod Reference
pub mod Model
pub mod Loaded
mod Tests
