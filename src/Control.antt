-- ===== src/Control.antt =====
-- crates/runner/src/wire.rs: the control of an independent runner by one connection at a time.
pub mod State
pub mod Events
pub mod Fence
pub mod Started
pub mod Epoch
mod Tests
