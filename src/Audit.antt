-- ===== src/Audit.antt =====
-- internal/audit: the pipeline of an audit, and what it holds while it runs.
pub mod Pipeline
pub mod Released
mod Tests
