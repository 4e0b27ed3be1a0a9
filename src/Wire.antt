-- ===== src/Wire.antt =====
-- crates/runner/src/wire.rs: envelopes, frames and the replay of answers.
pub mod Envelope
pub mod RoundTrip
pub mod Replay
pub mod Serve
pub mod Kept
pub mod Replayed
mod Tests
