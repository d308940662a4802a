-- ===== src/Api.antt =====
-- internal/api: the stream of a run's progress.
pub mod Stream
pub mod Channels
pub mod Delivery
mod Tests
