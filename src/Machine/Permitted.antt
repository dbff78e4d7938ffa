-- ===== src/Machine/Permitted.antt =====
-- What holds of every action on groups and users that is let through.
use mix.Base.{◌≤◌, List, [], ◌∷◌, map, true, nat_eq, text_eq, count, all, Text, ◌≡◌, refl, ◌∙◌, ap}
use mix.Effect.Action.{Action, action_eq}
use mix.Effect.Accounts.{Accounted, account_precondition}
use mix.Machine.World.{World, accounts_of, perform}
use mix.Machine.Valid.{IsValid, on_accounts}
use mix.Machine.Reverts.{
  Reverts, add_group-Reverts, set_group_gid-Reverts, set_user_ids-Reverts, add_member-Reverts,
  remove_member-Reverts,
}
use mix.Machine.Reverts.Groups.{delete_group-Reverts}
use mix.Machine.Reverts.Users.{add_user-Reverts, delete_user-Reverts}
use mix.Machine.Permits.{
  add_group-goes, set_group_gid-goes, set_user_ids-goes, add_member-goes, remove_member-goes,
  delete_group-goes, add_user-goes, delete_user-goes,
}
use mix.Machine.Keeps.{
  add_group-IsValid, delete_group-IsValid, add_member-IsValid, remove_member-IsValid,
}
use mix.Machine.Keeps.Users.{
  set_group_gid-IsValid, add_user-IsValid, set_user_ids-IsValid, delete_user-IsValid,
}

-- A new user is not put into a group twice.
abbrev pub Distinct : Action → Type 0
Distinct (Action.add_user spec) = (n : Text) → count n spec.groups ≤ 1
Distinct _ = Unit

pub permitted-Reverts :
    (action : Action) (w : World) → IsValid w → on_accounts action ≡ true → Reverts action w
permitted-Reverts (Action.add_group name gid) w valid h = add_group-Reverts w valid name gid
permitted-Reverts (Action.set_group_gid name gid expect) w valid h =
    set_group_gid-Reverts w valid name gid expect
permitted-Reverts (Action.delete_group name gid) w valid h = delete_group-Reverts w valid name gid
permitted-Reverts (Action.add_user spec) w valid h = add_user-Reverts w valid spec
permitted-Reverts (Action.set_user_ids name ids expect) w valid h =
    set_user_ids-Reverts w valid name ids expect
permitted-Reverts (Action.delete_user name ids comment) w valid h =
    delete_user-Reverts w valid name ids comment
permitted-Reverts (Action.add_member name who) w valid h = add_member-Reverts w valid name who
permitted-Reverts (Action.remove_member name who) w valid h = remove_member-Reverts w valid name who
permitted-Reverts _ w valid h = absurd (cc)

pub permitted-IsValid :
    (action : Action) (w : World) (undo : List Action)
    → IsValid w
    → on_accounts action ≡ true
    → Distinct action
    → account_precondition (accounts_of w) action ≡ Accounted.go undo
    → IsValid (perform action w)
permitted-IsValid (Action.add_group name gid) w undo valid h d e =
    add_group-IsValid w valid name gid undo e
permitted-IsValid (Action.set_group_gid name gid expect) w undo valid h d e =
    set_group_gid-IsValid w valid name gid expect undo e
permitted-IsValid (Action.delete_group name gid) w undo valid h d e =
    delete_group-IsValid w valid name gid undo e
permitted-IsValid (Action.add_user spec) w undo valid h d e = add_user-IsValid w valid spec undo e d
permitted-IsValid (Action.set_user_ids name ids expect) w undo valid h d e =
    set_user_ids-IsValid w valid name ids expect undo e
permitted-IsValid (Action.delete_user name ids comment) w undo valid h d e =
    delete_user-IsValid w valid name ids comment
permitted-IsValid (Action.add_member name who) w undo valid h d e =
    add_member-IsValid w valid name who undo e
permitted-IsValid (Action.remove_member name who) w undo valid h d e =
    remove_member-IsValid w valid name who undo e
permitted-IsValid _ w undo valid h d e = absurd (cc)

pub all-add_member :
    (name : Text) (ms : List Text) → all on_accounts (map (Action.add_member name) ms) ≡ true
all-add_member name [] = refl
all-add_member name (m ∷ ms) = all-add_member name ms

pub permitted-on_accounts :
    (action : Action) (w : World) (undo : List Action)
    → IsValid w
    → on_accounts action ≡ true
    → account_precondition (accounts_of w) action ≡ Accounted.go undo
    → all on_accounts undo ≡ true
permitted-on_accounts (Action.add_group name gid) w undo v h e =
    ap (all on_accounts) (add_group-goes w v name gid undo e).2
permitted-on_accounts (Action.set_group_gid name gid expect) w undo v h e =
    ap (all on_accounts) (set_group_gid-goes w v name gid expect undo e).5
permitted-on_accounts (Action.delete_group name gid) w undo v h e =
    let (g, _, _, _, is) = delete_group-goes w v name gid undo e in
    ap (all on_accounts) is ∙ all-add_member name g.members
permitted-on_accounts (Action.add_user spec) w undo v h e =
    ap (all on_accounts) (add_user-goes w v spec undo e).4
permitted-on_accounts (Action.set_user_ids name ids expect) w undo v h e =
    ap (all on_accounts) (set_user_ids-goes w v name ids expect undo e).6
permitted-on_accounts (Action.delete_user name ids comment) w undo v h e =
    ap (all on_accounts) (delete_user-goes w v name ids comment undo e).2
permitted-on_accounts (Action.add_member name who) w undo v h e =
    ap (all on_accounts) (add_member-goes w v name who undo e).4
permitted-on_accounts (Action.remove_member name who) w undo v h e =
    ap (all on_accounts) (remove_member-goes w v name who undo e).3
permitted-on_accounts _ w undo v h e = absurd (cc)
