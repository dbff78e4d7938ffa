-- ===== src/Lib.antt =====
-- A model of the core of mix: what it changes on a machine, how it undoes it, and what it reports.
--
-- The parts, and the files that model them:
--   * Effect (crates/core/src/effect): the actions, queries, facts and failures as data types with
--     the constructors and fields of the source. `is_sync`, `needs_loaded_units` and `describe` are
--     functions by clauses on `Action`. Declared.Paths has the paths that `describe` builds
--     (crates/core/src/declared/paths.rs).
--   * Run.Rollback (`rollback_order` of crates/core/src/run/journal.rs): what a rollback runs. The
--     vectors `ordered` and `pending` of the loops are the record `Draft`; `place` is one round.
--   * Run.Journal (the rest of the same file): the records of a request and `recover`, which reads
--     them after a crash. Its closure `still` changes a vector, so it returns what is left of it.
--   * Run.Runner (crates/core/src/run/mod.rs): the runner of a request. Moves has what it does to its
--     own state, Forward and Backward one function for each arm of the loop of `step`, and Turn the
--     loop on fuel; a panic is `none`. What the driver of a session may do is the relation `Driven` of
--     Run.Runner.Sessions, of which Run.Runner.Reports has the reports on the tree. The diagnostic of
--     a failure (crates/core/src/report/diagnose.rs) is a
--     parameter.
--   * Events.Message (crates/events/proto/mix/events/v1/events.proto): the messages.
--   * Events.Validate (crates/events/src/validate.rs): the validator of a stream of events, one
--     function for each handler, in a result monad, with the guards in the order of the source.
--   * Events.Tree (crates/events/src/tree.rs): the tree of open nodes, whose operations push the
--     events. The outbox is the list of what was pushed, oldest first. Events.Tree.Calls has the
--     calls of a client, and what the tree leaves to the client: that planned keys differ, that a
--     rollback names a finished step beside it, that a reason, a blocker, a cause, a result and an
--     exit code stand where they belong. Events.Tree.Coupling relates the tree to its reader.
--   * Events.Outbox (crates/events/src/outbox.rs): the queue that numbers the events and leaves out
--     superseded snapshots. The theorems on the tree number every event; those on the outbox say
--     which ones it leaves out, and that the reader takes what is left. Serving puts the calls of
--     `next` between the pushes.
--   * Events.Detail (crates/events/src/detail.rs) and Run.Locks (crates/core/src/run/locks.rs): the
--     detail that an event belongs to, and the locks that a request needs.
--   * Ops.Update (crates/core/src/ops/update.rs, `forward` of crates/core/src/declared/pins.rs): what an
--     update decides of the pinned inputs.
--   * Ops.Change (crates/core/src/ops/change/mod.rs): the package list that is settled on, and what an
--     install or a removal makes of it, up to the steps; the reading of JSON is a parameter.
--   * Nixgen (crates/nixgen/src/print.rs, parse.rs and ident.rs): the strings and attribute names of Nix
--     code. Write and Literals have the writer, Read the parser, which is the source behind its
--     position; what reads an interpolated expression is a parameter. Percent has `percent_encode`
--     (crates/nixgen/src/installable.rs) and `percent_decode` (crates/nixgen/fuzz/src/installable.rs).
--   * Effect.Accounts (crates/core/src/effect/precondition/accounts.rs): whether an action on groups and
--     users is let through, and what undoes it, over the trait `Accounts`, here a record.
--   * Machine (crates/core/src/model/mod.rs): the groups and users of the simulated machine. World has
--     `apply` for the actions on them; its maps, sorted by their keys, are those of Machine.Map. Valid
--     has what a machine must meet for its actions to be undone, Permits what an action finds when it
--     is let through, Reverts its undo, Keeps that the machine stays valid, and Rollback whole sessions.
--     Of World, which has more fields, these two are all that such an action reads and changes.
--   * Declared.State (crates/core/src/declared/state.rs): the list of installed packages.
--
-- How they interact: the runner performs the actions of a request's steps through its driver, reports
-- them to the tree, and undoes them in rollback order; the driver writes
-- `Run.Journal.Record`s around each, and after a crash `recover` says what to undo, on the same order.
-- What happens is reported through the tree, whose stream the validator must accept.
--
-- Base holds the shared helpers: Boolean tests and lists over the native numbers, and equality as an
-- instance. Texts, paths included, are lists of bytes.
--
-- Bounds: five definitions count rounds. A call of the runner's `step` takes at most 13 rounds for each
-- step of the plan and eight more. `decimal` writes a number with as many rounds as the number
-- and one more; every round divides by ten. `drain` takes as many rounds as there are items and one
-- more; every round but the last takes an item. `descends_from` goes from a node to its parent, whose
-- id is lower, for as many rounds as the id and one more. The reader of a string takes as many rounds
-- as there are bytes and one more; every round but the last reads a byte. Sequence numbers and node ids are natural
-- numbers: the counters of the source are 64 bits wide, and the ids and numbers start at 1.
--
-- Not modelled: the operations but the update and the package list of a change, the declared targets and tree, the
-- files, units and profiles of the simulated machine and the rest of the generation of Nix code, which are larger parts of their own; the outbox's
-- mutex and its wake-up, the nodes that close when they are dropped, and JSON, which are of libraries
-- and the language; texts for people; system calls, processes, sockets and the command line. The validator's state behind an event that it refuses is not kept, since
-- `validate` stops there.
pub mod Base
pub mod Declared
pub mod Effect
pub mod Machine
pub mod Run
pub mod Events
pub mod Ops
pub mod Nixgen
