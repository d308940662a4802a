-- ===== src/Config.antt =====
-- internal/config: the settings, and what is refused of them.
pub mod Settings
pub mod Usable
pub mod Address
mod Tests
