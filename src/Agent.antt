-- ===== src/Agent.antt =====
-- internal/agent: the loop that runs a model against the tools, and the messages it exchanges.
pub mod Message
pub mod Written
pub mod Retry
pub mod Loop
pub mod Dialogue
pub mod Turns
pub mod Running
mod Tests
