-- ===== src/Sql.antt =====
-- internal/engine/sql.go: quoting of names and texts from customer files.
pub mod Quote
pub mod Injection
pub mod Statistic
mod Tests
