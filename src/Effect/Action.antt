-- ===== src/Effect/Action.antt =====
-- crates/core/src/effect/action.rs: the actions, which of them only bring the machine in line with
-- what others wrote (`is_sync`), and which need systemd to have loaded its units.
use mix.Base.{ℕ, List, Option, Bool, true, false, Text, Eq, derived, ℕ_discrete}
use mix.Effect.Types.{Owner, Digest, FileId, Expect, InvokingUser, UserSpec, FlakeSource}

pub data Action : Type 0 where
  create_dir : Text → ℕ → Option Owner → Action
  create_dirs : Text → ℕ → Option Owner → Action
  put_file : Text → List ℕ → ℕ → Option Owner → Expect → Action
  set_mode : Text → ℕ → ℕ → Action
  set_owner : Text → Owner → Owner → Action
  set_aside : Text → FileId → Action
  discard : Text → FileId → Action
  keep : Text → Action
  remove_created : Text → FileId → Action
  remove_created_tree : Text → FileId → Action
  restore : Text → Text → Expect → Action
  reclaim_tree : Text → FileId → Owner → ℕ → Action
  copy_tree : Text → Text → Owner → ℕ → Action
  add_group : Text → ℕ → Action
  set_group_gid : Text → ℕ → ℕ → Action
  delete_group : Text → ℕ → Action
  add_user : UserSpec → Action
  set_user_ids : Text → Owner → Owner → Action
  delete_user : Text → Owner → Text → Action
  add_member : Text → Text → Action
  remove_member : Text → Text → Action
  install_unit : Text → List ℕ → Expect → Action
  enable_unit : Text → Action
  disable_unit : Text → Action
  start_unit : Text → Action
  stop_unit : Text → Action
  restart_unit : Text → Action
  drain_service : Text → Action
  daemon_reload : Action
  install_runtime : Text → Digest → ℕ → Action
  remove_runtime : List Text → List Text → Action
  activate_profile : InvokingUser → FlakeSource → Action
  switch_generation : InvokingUser → Option ℕ → Option ℕ → Action
  delete_generation : InvokingUser → ℕ → Action
  apply_generation : InvokingUser → Action
  record_state : InvokingUser → Action
  collect_garbage : InvokingUser → Action
  create_repository : InvokingUser → Action
  commit : Action

unfoldable pub Action-discrete : Discrete Action
Action-discrete = hlevel ℕ_discrete

instance abbrev pub action_eq : Eq Action
action_eq = derived Action-discrete

unfoldable pub is_sync : Action → Bool
is_sync daemon_reload = true
is_sync (restart_unit _) = true
is_sync (apply_generation _) = true
is_sync _ = false

unfoldable pub needs_loaded_units : Action → Bool
needs_loaded_units (enable_unit _) = true
needs_loaded_units (disable_unit _) = true
needs_loaded_units (start_unit _) = true
needs_loaded_units (stop_unit _) = true
needs_loaded_units _ = false
