-- ===== src/Domain.antt =====
-- crates/domain: the types that the components share.
pub mod Error
pub mod Patch
pub mod Approval
