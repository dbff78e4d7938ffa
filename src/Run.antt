-- ===== src/Run.antt =====
-- crates/core/src/run: the runner of a request, the order in which changes are undone, and the journal
-- that survives a crash.
pub mod Rollback
pub mod Journal
pub mod Locks
pub mod Runner
pub mod Examples
