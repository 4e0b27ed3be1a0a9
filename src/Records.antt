-- ===== src/Records.antt =====
-- crates/store/src/processes.rs: what the store records of each execution.
pub mod Types
pub mod Changes
pub mod Table
pub mod Progress
pub mod Sound
pub mod Runs
pub mod Histories
pub mod Lost
mod Tests
