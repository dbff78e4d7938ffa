-- ===== src/Effect/Subjects.antt =====
-- `Subject` and `Action::subjects` of crates/core/src/effect/action.rs: what an action touches.
use mix.Base.{List, [], ◌∷◌, ◌++◌, map, Text, text}
use mix.Effect.Types.{InvokingUser}
use mix.Effect.Action.{Action}
use mix.Declared.Paths.{
  nix_store, systemd_unit_dir, default_profile_nix_env, nix_daemon_service_src,
  nix_daemon_socket_src, join, mix_state_dir, repository_dir,
}

pub data Subject : Type 0 where
  path group user unit : Text → Subject
  profile : InvokingUser → Subject

abbrev pub state_files : List Text
state_files = text "flake.nix" ∷ text "home.nix" ∷ text "flake.lock" ∷ text "state" ∷ []

unfoldable pub of_unit : Text → List Subject
unfolding join
of_unit name = Subject.unit name ∷ Subject.path (join systemd_unit_dir name) ∷ []

unfoldable pub of_repository : InvokingUser → List Subject
unfolding repository_dir
of_repository who =
    let repository = repository_dir who.home in
    Subject.path (join repository (text "HEAD")) ∷ Subject.path repository ∷ []

unfoldable pub subjects : Action → List Subject
unfolding of_unit of_repository mix_state_dir
subjects (Action.create_dir at _ _) = Subject.path at ∷ []
subjects (Action.create_dirs at _ _) = Subject.path at ∷ []
subjects (Action.put_file at _ _ _ _) = Subject.path at ∷ []
subjects (Action.set_mode at _ _) = Subject.path at ∷ []
subjects (Action.set_owner at _ _) = Subject.path at ∷ []
subjects (Action.set_aside at _) = Subject.path at ∷ []
subjects (Action.discard at _) = Subject.path at ∷ []
subjects (Action.keep at) = Subject.path at ∷ []
subjects (Action.remove_created at _) = Subject.path at ∷ []
subjects (Action.remove_created_tree at _) = Subject.path at ∷ []
subjects (Action.reclaim_tree at _ _ _) = Subject.path at ∷ []
subjects (Action.restore at from _) = Subject.path at ∷ Subject.path from ∷ []
subjects (Action.copy_tree from to _ _) = Subject.path from ∷ Subject.path to ∷ []
subjects (Action.add_group name _) = Subject.group name ∷ []
subjects (Action.set_group_gid name _ _) = Subject.group name ∷ []
subjects (Action.delete_group name _) = Subject.group name ∷ []
subjects (Action.add_user spec) = Subject.user spec.name ∷ map Subject.group spec.groups
subjects (Action.set_user_ids name _ _) = Subject.user name ∷ []
subjects (Action.delete_user name _ _) = Subject.user name ∷ []
subjects (Action.add_member name who) = Subject.group name ∷ Subject.user who ∷ []
subjects (Action.remove_member name who) = Subject.group name ∷ Subject.user who ∷ []
subjects (Action.install_unit name _ _) = of_unit name
subjects (Action.enable_unit name) = of_unit name
subjects (Action.disable_unit name) = of_unit name
subjects (Action.start_unit name) = of_unit name
subjects (Action.stop_unit name) = of_unit name
subjects (Action.restart_unit name) = of_unit name
subjects (Action.drain_service name) = of_unit name
subjects Action.daemon_reload = []
subjects Action.commit = []
subjects (Action.install_runtime _ _ _) =
    map Subject.path
      (nix_store ∷ default_profile_nix_env ∷ nix_daemon_service_src ∷ nix_daemon_socket_src ∷ [])
subjects (Action.remove_runtime created kept) = map Subject.path (created ++ kept)
subjects (Action.activate_profile who _) =
    Subject.profile who
    ∷ Subject.path default_profile_nix_env
    ∷ map (λ file. Subject.path (join (mix_state_dir who.home) file)) state_files
subjects (Action.switch_generation who _ _) = Subject.profile who ∷ []
subjects (Action.delete_generation who _) = Subject.profile who ∷ []
subjects (Action.apply_generation who) = Subject.profile who ∷ []
subjects (Action.collect_garbage who) = Subject.profile who ∷ []
subjects (Action.record_state who) = of_repository who
subjects (Action.create_repository who) = of_repository who
