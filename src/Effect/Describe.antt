-- ===== src/Effect/Describe.antt =====
-- `Action::describe` of crates/core/src/effect/action.rs: the operation that an action is reported
-- as, of crates/events/proto/mix/events/v1/events.proto, and the subject that it names.
use mix.Base.{List, [], ◌∷◌, ◌++◌, none, some, Text, text}
use mix.Effect.Action.{Action}
use mix.Declared.Paths.{nix_store, mix_state_dir, repository_dir, profile_path, generation_link}

pub data Operation : Type 0 where
  unspecified : Operation
  create_dir create_dirs put_file set_mode set_owner set_aside discard keep remove_created
        remove_created_tree restore reclaim_tree copy_tree add_group set_group_gid delete_group
        add_user set_user_ids delete_user add_member :
      Operation
  remove_member install_unit enable_unit disable_unit start_unit stop_unit restart_unit
        drain_service daemon_reload install_runtime remove_runtime activate_profile
        switch_generation delete_generation apply_generation record_state collect_garbage
        create_repository commit :
      Operation

-- `join(", ")`.
unfoldable pub comma_separated : List Text → Text
comma_separated [] = []
comma_separated (t ∷ []) = t
comma_separated (t ∷ u ∷ rest) = t ++ text ", " ++ comma_separated (u ∷ rest)

unfoldable pub describe : Action → Operation × Text
unfolding mix_state_dir repository_dir profile_path generation_link comma_separated
describe (Action.create_dir at _ _) = (Operation.create_dir, at)
describe (Action.create_dirs at _ _) = (Operation.create_dirs, at)
describe (Action.put_file at _ _ _ _) = (Operation.put_file, at)
describe (Action.set_mode at _ _) = (Operation.set_mode, at)
describe (Action.set_owner at _ _) = (Operation.set_owner, at)
describe (Action.set_aside at _) = (Operation.set_aside, at)
describe (Action.discard at _) = (Operation.discard, at)
describe (Action.keep at) = (Operation.keep, at)
describe (Action.remove_created at _) = (Operation.remove_created, at)
describe (Action.remove_created_tree at _) = (Operation.remove_created_tree, at)
describe (Action.restore at _ _) = (Operation.restore, at)
describe (Action.reclaim_tree at _ _ _) = (Operation.reclaim_tree, at)
describe (Action.copy_tree _ to _ _) = (Operation.copy_tree, to)
describe (Action.add_group name _) = (Operation.add_group, name)
describe (Action.set_group_gid name _ _) = (Operation.set_group_gid, name)
describe (Action.delete_group name _) = (Operation.delete_group, name)
describe (Action.add_user spec) = (Operation.add_user, spec.name)
describe (Action.set_user_ids name _ _) = (Operation.set_user_ids, name)
describe (Action.delete_user name _ _) = (Operation.delete_user, name)
describe (Action.add_member group user) = (Operation.add_member, user ++ text " in " ++ group)
describe (Action.remove_member group user) = (Operation.remove_member, user ++ text " in " ++ group)
describe (Action.install_unit unit _ _) = (Operation.install_unit, unit)
describe (Action.enable_unit unit) = (Operation.enable_unit, unit)
describe (Action.disable_unit unit) = (Operation.disable_unit, unit)
describe (Action.start_unit unit) = (Operation.start_unit, unit)
describe (Action.stop_unit unit) = (Operation.stop_unit, unit)
describe (Action.restart_unit unit) = (Operation.restart_unit, unit)
describe (Action.drain_service unit) = (Operation.drain_service, unit)
describe Action.daemon_reload = (Operation.daemon_reload, text "systemd")
describe (Action.install_runtime url _ _) = (Operation.install_runtime, url)
describe (Action.remove_runtime created kept) =
    (Operation.remove_runtime, comma_separated (created ++ kept))
describe (Action.activate_profile user _) = (Operation.activate_profile, profile_path user.home)
describe (Action.switch_generation user (some generation) _) =
    (Operation.switch_generation, generation_link user.home generation)
describe (Action.switch_generation user none _) =
    (Operation.switch_generation, profile_path user.home)
describe (Action.delete_generation user generation) =
    (Operation.delete_generation, generation_link user.home generation)
describe (Action.apply_generation user) = (Operation.apply_generation, profile_path user.home)
describe (Action.record_state user) = (Operation.record_state, mix_state_dir user.home)
describe (Action.collect_garbage _) = (Operation.collect_garbage, nix_store)
describe (Action.create_repository user) = (Operation.create_repository, repository_dir user.home)
describe Action.commit = (Operation.commit, text "changes")
