-- ===== src/Approvals.antt =====
-- crates/store/src/approvals.rs: confirmation holds, from their creation to the one resume of each.
pub mod Types
pub mod Methods
pub mod Settle
pub mod Changes
pub mod Steps
pub mod Lifecycle
pub mod Contents
pub mod Claims
pub mod Once
pub mod Replay
mod Tests
