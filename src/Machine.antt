-- ===== src/Machine.antt =====
-- The accounts of crates/core/src/model: the simulated machine that actions are tried on.
pub mod Map
pub mod World
pub mod Members
pub mod Valid
pub mod Succeeds
pub mod Checks
pub mod Permits
pub mod Changes
pub mod Joining
pub mod Reverts
pub mod Fits
pub mod Keeps
pub mod Permitted
pub mod Rollback
pub mod Again
pub mod Examples
