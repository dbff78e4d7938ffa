-- ===== src/Ops.antt =====
-- crates/core/src/ops: what the commands decide.
pub mod Update
pub mod Change
pub mod Examples
