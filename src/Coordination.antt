-- ===== src/Coordination.antt =====
-- crates/store/src/coord.rs: works and the queue of the user's intents.
pub mod Types
pub mod Names
pub mod Queries
pub mod Intents
pub mod Works
pub mod Claims
pub mod Counts
pub mod Finish
pub mod Drain
pub mod Progress
pub mod Rows
pub mod Carries
pub mod Edits
pub mod Closes
pub mod Runs
pub mod Order
mod Tests
