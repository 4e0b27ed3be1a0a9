-- ===== src/Occupancy.antt =====
-- crates/store/src/resource.rs and the guards of crates/store/src/lib.rs: the in-memory occupancy
-- of resources, with one FIFO of waiters for each resource.
pub mod Types
pub mod Serializer
pub mod Methods
pub mod Slot
pub mod Wake
pub mod Invariant
pub mod Runs
pub mod Fifo
pub mod Refusals
pub mod Guards
mod Tests
