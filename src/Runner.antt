-- ===== src/Runner.antt =====
-- crates/runner/src/process.rs: the processes that a runner holds.
pub mod Output
pub mod Ring
pub mod Lifecycle
pub mod Ends
pub mod Slots
pub mod Limit
pub mod Remembered
pub mod Recorded
pub mod Answers
mod Tests
