-- ===== src/Operations.antt =====
-- crates/store/src/lib.rs: the ledger of patch operations.
pub mod Ledger
pub mod Replays
pub mod Held
pub mod Keys
pub mod Answers
pub mod Finished
mod Tests
