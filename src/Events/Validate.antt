-- ===== src/Events/Validate.antt =====
-- crates/events/src/validate.rs: a reader's check of the rules I1 to I9 of an event stream.
pub mod Nodes
pub mod State
pub mod Check
pub mod Stream
pub mod Shift
