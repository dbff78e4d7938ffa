-- ===== src/Declared.antt =====
-- crates/core/src/declared: what mix declares about a machine and a user.
pub mod Paths
pub mod Decimal
pub mod State
pub mod Packages
pub mod Order
pub mod Examples
