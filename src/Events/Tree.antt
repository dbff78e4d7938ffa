-- ===== src/Events/Tree.antt =====
-- crates/events/src/tree.rs: the producer of an event stream, and that a reader accepts its streams.
pub mod State
pub mod Abandon
pub mod Coupling
pub mod Claims
pub mod Starting
pub mod Touching
pub mod Noting
pub mod Closing
pub mod Planned
pub mod Finishing
pub mod Calls
pub mod Steps
pub mod Reporting
pub mod Session
