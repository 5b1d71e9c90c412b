-- ===== src/Strategy.antt =====
-- src/routing/strategy.rs: which providers may serve a request, and in which order.
pub mod Scores
pub mod Candidates
pub mod Selection
pub mod Permutes
pub mod Sorted
pub mod Tests
pub mod Chosen
