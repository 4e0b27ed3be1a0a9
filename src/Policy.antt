-- ===== src/Policy.antt =====
-- crates/policy: the registry of workspaces, and what each allows.
pub mod Types
pub mod Permission
pub mod Paths
pub mod Inside
pub mod Registry
pub mod Loaded
mod Tests
