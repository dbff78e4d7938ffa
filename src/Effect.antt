-- ===== src/Effect.antt =====
-- crates/core/src/effect: the actions that a step performs, what it observes, and how it fails.
pub mod Types
pub mod Action
pub mod Observe
pub mod Accounts
pub mod Failure
pub mod Describe
pub mod Subjects
