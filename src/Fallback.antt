-- ===== src/Fallback.antt =====
-- src/routing/fallback.rs: calling the candidates one after the other until one answers.
pub mod Attempt
pub mod Backoff
pub mod World
pub mod Retry
pub mod Chat
pub mod Explained
pub mod Report
mod Tests
pub mod Quiet
pub mod Slots
