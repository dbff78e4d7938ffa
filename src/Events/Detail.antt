-- ===== src/Events/Detail.antt =====
-- crates/events/src/detail.rs: how much detail an event belongs to.
use mix.Base.{Option, none, some, ◌==◌, nat_eq, if◌then◌else◌}
use mix.Events.Message.{Kind, Progress, Status, decoded, Event, root}

pub data Detail : Type 0 where
  outcome step action trace : Detail

abbrev pub started_detail : {P : Type 0} → Option (Kind P) → Detail
started_detail none = Detail.trace
started_detail (some (Kind.step _ _)) = Detail.step
started_detail (some (Kind.rollback _)) = Detail.step
started_detail (some (Kind.lock_wait _)) = Detail.step
started_detail (some _) = Detail.action

abbrev pub finished_detail : Status → Detail
finished_detail Status.failed = Detail.step
finished_detail _ = Detail.action

abbrev pub progress_detail : {P : Type 0} → Option (Progress P) → Detail
progress_detail none = Detail.trace
progress_detail (some (Progress.bytes _)) = Detail.step
progress_detail (some (Progress.builds _)) = Detail.step
progress_detail (some (Progress.stopping _)) = Detail.step
progress_detail (some (Progress.waiting _)) = Detail.step
progress_detail (some (Progress.command _)) = Detail.action
progress_detail (some (Progress.fetch _)) = Detail.action
progress_detail (some (Progress.build _)) = Detail.action
progress_detail (some (Progress.substitution _)) = Detail.action
progress_detail (some _) = Detail.trace

unfoldable pub detail : {P : Type 0} → Event P → Detail
detail (Event.node_started node) = started_detail node.kind
detail (Event.node_finished node) =
    if node.id == root
    then Detail.outcome
    else finished_detail (decoded Status.unspecified node.status)
detail (Event.not_run _) = Detail.action
detail (Event.node_progress _ progress) = progress_detail progress
detail (Event.diagnostic _) = Detail.step
