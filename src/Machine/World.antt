-- ===== src/Machine/World.antt =====
-- The groups and users of `World` of crates/core/src/model/mod.rs, and what `apply` does to them. No
-- other action touches them, and an action on them touches nothing else.
use mix.Base.{
  List, [], ◌∷◌, ◌++◌, filter, not, if◌then◌else◌, ◌==◌, nat_eq, text_eq, contains, Text,
}
use mix.Effect.Types.{UserSpec}
use mix.Effect.Action.{Action}
use mix.Effect.Observe.{GroupFacts, UserFacts}
use mix.Effect.Failure.{Outcome}
use mix.Effect.Accounts.{Accounts, Accounted, account_precondition}
use mix.Declared.State.{sort_texts}
use mix.Machine.Map.{Map, lookup, insert, remove, change, change_all, key_of, keys_of}

pub record World : Type 0 where
  pub groups : Map GroupFacts
  pub users : Map UserFacts

-- `impl Accounts for World`.
abbrev pub accounts_of : World → Accounts
accounts_of w = record {
  group = λ name. lookup name w.groups;
  user = λ name. lookup name w.users;
  group_with_gid = λ gid. key_of (λ group. group.gid == gid) w.groups;
  user_with_uid = λ uid. key_of (λ user. user.uid == uid) w.users;
  primary_of = λ gid. key_of (λ user. user.gid == gid) w.users;
  groups_of = λ user. keys_of (λ group. contains group.members user) w.groups;
}

-- `members.push(user)` and `members.sort()`.
unfoldable pub with_member : Text → GroupFacts → GroupFacts
with_member user group = record group { members = sort_texts (group.members ++ user ∷ []) }

-- `members.retain(|member| member != user)`.
unfoldable pub without_member : Text → GroupFacts → GroupFacts
without_member user group = record group {
  members = filter (λ member. not (member == user)) group.members;
}

unfoldable pub join_groups : Text → List Text → Map GroupFacts → Map GroupFacts
join_groups user [] groups = groups
join_groups user (name ∷ names) groups =
    join_groups user names (change name (with_member user) groups)

abbrev pub facts_of : UserSpec → UserFacts
facts_of spec = record {
  uid = spec.uid;
  gid = spec.gid;
  home = spec.home;
  shell = spec.shell;
  comment = spec.comment;
}

-- The part of `apply` behind the preconditions.
unfoldable pub perform : Action → World → World
unfolding with_member without_member join_groups
perform (Action.add_group name gid) w = record w {
  groups = insert name (record { gid = gid; members = [] }) w.groups;
}
perform (Action.set_group_gid name gid expect) w = record w {
  groups = change name (λ group. record group { gid = gid }) w.groups;
  users =
      change_all (λ user. if user.gid == expect then record user { gid = gid } else user) w.users;
}
perform (Action.delete_group name _) w = record w { groups = remove name w.groups }
perform (Action.add_user spec) w = record w {
  users = insert spec.name (facts_of spec) w.users;
  groups = join_groups spec.name spec.groups w.groups;
}
perform (Action.set_user_ids name (uid, gid) _) w = record w {
  users = change name (λ user. record user { uid = uid; gid = gid }) w.users;
}
perform (Action.delete_user name _ _) w = record w {
  users = remove name w.users;
  groups = change_all (without_member name) w.groups;
}
perform (Action.add_member name who) w = record w {
  groups = change name (with_member who) w.groups;
}
perform (Action.remove_member name who) w = record w {
  groups = change name (without_member who) w.groups;
}
perform _ w = w

abbrev pub performed : Action → World → Accounted → Outcome × World
performed action w (Accounted.done) = (Outcome.ok (record { undo = [] }), w)
performed action w (Accounted.go undo) = (Outcome.ok (record { undo = undo }), perform action w)
performed action w (Accounted.refused failure) = (Outcome.err failure, w)

-- `apply` for an action on groups and users.
unfoldable pub apply : Action → World → Outcome × World
unfolding account_precondition perform
apply action w = performed action w (account_precondition (accounts_of w) action)
