-- ===== src/Redact.antt =====
-- internal/agent/redact: the guard between the process and a language model.
pub mod Shape
pub mod Fixed
pub mod Guard
pub mod Withheld
pub mod Ledger
pub mod Quoted
pub mod Scrub
pub mod Seal
pub mod Leak
pub mod Rows
mod Tests
