-- ===== src/Events.antt =====
-- crates/events: the stream of events that a request reports, the tree that produces it and the
-- validator that a reader checks it with.
pub mod Message
pub mod Validate
pub mod Tree
pub mod Outbox
pub mod Detail
pub mod Examples
