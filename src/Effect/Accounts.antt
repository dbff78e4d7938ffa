-- ===== src/Effect/Accounts.antt =====
-- `account_precondition` of crates/core/src/effect/precondition/accounts.rs: whether an action on
-- groups and users is done already, may go ahead, or is refused, and what undoes it.
use mix.Base.{
  ℕ, List, [], ◌∷◌, ◌++◌, map, filter, Option, none, some, is_some, Bool, false, not, ◌&&◌,
  if◌then◌else◌, ◌==◌, nat_eq, text_eq, contains, Text, text,
}
use mix.Effect.Types.{Owner, UserSpec}
use mix.Effect.Action.{Action}
use mix.Effect.Observe.{GroupFacts, UserFacts}
use mix.Effect.Failure.{Failure}
use mix.Declared.Paths.{decimal}

-- The trait `Accounts`.
pub record Accounts : Type 0 where
  pub group : Text → Option GroupFacts
  pub user : Text → Option UserFacts
  pub group_with_gid : ℕ → Option Text
  pub user_with_uid : ℕ → Option Text
  pub primary_of : ℕ → Option Text
  pub groups_of : Text → List Text

-- `Result<Accounted, Failure>`, whose errors are what the checks below return.
pub data Accounted : Type 0 where
  done : Accounted
  go : List Action → Accounted
  refused : Failure → Accounted

pub data Checked (A : Type 0) : Type 0 where
  ok : A → Checked A
  err : Failure → Checked A

abbrev pub then_go : {A : Type 0} → Checked A → (A → Accounted) → Accounted
then_go (ok a) next = next a
then_go (err failure) next = Accounted.refused failure

abbrev ids : Owner → Text
ids (uid, gid) = decimal uid ++ text ":" ++ decimal gid

abbrev pub same_ids : ℕ → ℕ → Owner → Bool
same_ids uid gid (uid', gid') = uid == uid' && gid == gid'

abbrev conflict : {A : Type 0} → Text → Text → Text → Checked A
conflict subject expected found = Checked.err (Failure.conflict subject expected found)

abbrev pub group_expected : Text → ℕ → Option GroupFacts → Checked GroupFacts
group_expected name gid none = conflict name (text "gid " ++ decimal gid) (text "no group")
group_expected name gid (some found) =
    if found.gid == gid
    then Checked.ok found
    else conflict name (text "gid " ++ decimal gid) (text "gid " ++ decimal found.gid)

abbrev pub user_expected : Text → Owner → Option UserFacts → Checked UserFacts
user_expected name owner none = conflict name (text "ids " ++ ids owner) (text "no user")
user_expected name owner (some found) =
    if same_ids found.uid found.gid owner
    then Checked.ok found
    else conflict name (text "ids " ++ ids owner) (text "ids " ++ ids (found.uid, found.gid))

abbrev pub free_of : Text → Text → Option Text → Checked (Unit {0})
free_of name id none = Checked.ok tt
free_of name id (some holder) =
    if not (holder == name)
    then conflict name (id ++ text " free") (id ++ text " held by " ++ holder)
    else Checked.ok tt

abbrev pub members_of : Option GroupFacts → List Text
members_of none = []
members_of (some found) = found.members

abbrev pub has_gid : ℕ → Option GroupFacts → Bool
has_gid gid none = false
has_gid gid (some found) = found.gid == gid

abbrev pub has_ids : Owner → Option UserFacts → Bool
has_ids owner none = false
has_ids owner (some found) = same_ids found.uid found.gid owner

abbrev pub no_group : Text → Option GroupFacts → Checked (Unit {0})
no_group name none = Checked.ok tt
no_group name (some found) = conflict name (text "no group") (text "gid " ++ decimal found.gid)

abbrev pub no_user : Text → Option UserFacts → Checked (Unit {0})
no_user name none = Checked.ok tt
no_user name (some found) = conflict name (text "no user") (text "uid " ++ decimal found.uid)

abbrev pub nobodys_primary : Text → Option Text → Checked (Unit {0})
nobodys_primary name none = Checked.ok tt
nobodys_primary name (some who) =
    conflict name (text "no user in it as their primary group")
      (text "the primary group of " ++ who)

abbrev pub none_missing : Text → List Text → Checked (Unit {0})
none_missing name [] = Checked.ok tt
none_missing name (missing ∷ _) = conflict name (text "group " ++ missing) (text "no group")

abbrev pub same_comment : Text → Text → UserFacts → Checked (Unit {0})
same_comment name comment found =
    if not (found.comment == comment)
    then conflict name (text "comment `" ++ comment ++ text "`")
        (text "comment `" ++ found.comment ++ text "`")
    else Checked.ok tt

abbrev pub exists : {A : Type 0} → Text → Text → Text → Option A → Checked (Unit {0})
exists subject expected found none = conflict subject expected found
exists subject expected found (some _) = Checked.ok tt

module _ (accounts : Accounts) where
  open accounts use {group, user, group_with_gid, user_with_uid, primary_of, groups_of}

  unfoldable pub expect_group : Text → ℕ → Checked GroupFacts
  expect_group name gid = group_expected name gid (group name)

  unfoldable pub expect_user : Text → Owner → Checked UserFacts
  expect_user name owner = user_expected name owner (user name)

  unfoldable pub gid_free : Text → ℕ → Checked (Unit {0})
  gid_free name gid = free_of name (text "gid " ++ decimal gid) (group_with_gid gid)

  unfoldable pub uid_free : Text → ℕ → Checked (Unit {0})
  uid_free name uid = free_of name (text "uid " ++ decimal uid) (user_with_uid uid)

  unfoldable pub done_already : Action → Bool
  done_already (Action.add_group name gid) = has_gid gid (group name)
  done_already (Action.set_group_gid name gid _) = has_gid gid (group name)
  done_already (Action.delete_group name _) = not (is_some (group name))
  done_already (Action.add_user spec) = has_ids (spec.uid, spec.gid) (user spec.name)
  done_already (Action.set_user_ids name owner _) = has_ids owner (user name)
  done_already (Action.delete_user name _ _) = not (is_some (user name))
  done_already (Action.add_member name who) = contains (members_of (group name)) who
  done_already (Action.remove_member name who) = not (contains (members_of (group name)) who)
  done_already _ = false

  -- The groups that a new user needs and that are missing.
  unfoldable pub missing_groups : UserSpec → List Text
  missing_groups spec =
      filter (λ _. not (is_some (group_with_gid spec.gid))) (decimal spec.gid ∷ [])
      ++ filter (λ name. not (is_some (group name))) spec.groups

  unfoldable pub spec_of : Text → UserFacts → UserSpec
  spec_of name found = record {
    name = name;
    uid = found.uid;
    gid = found.gid;
    home = found.home;
    shell = found.shell;
    comment = found.comment;
    groups = groups_of name;
  }

  -- `account_precondition` behind `done_already`.
  unfoldable pub permitted : Action → Accounted
  unfolding expect_group expect_user gid_free uid_free missing_groups spec_of
  permitted (Action.add_group name gid) =
      then_go (no_group name (group name))
        λ _. then_go (gid_free name gid) λ _. Accounted.go (Action.delete_group name gid ∷ [])
  permitted (Action.set_group_gid name gid expect) =
      then_go (expect_group name expect) λ _.
        then_go (gid_free name gid) λ _. Accounted.go (Action.set_group_gid name expect gid ∷ [])
  permitted (Action.delete_group name expect) = then_go (expect_group name expect) λ found.
      then_go (nobodys_primary name (primary_of expect)) λ _.
        Accounted.go (Action.add_group name expect ∷ map (Action.add_member name) found.members)
  permitted (Action.add_user spec) = then_go (no_user spec.name (user spec.name)) λ _.
      then_go (uid_free spec.name spec.uid) λ _.
        then_go (none_missing spec.name (missing_groups spec))
          λ _. Accounted.go (Action.delete_user spec.name (spec.uid, spec.gid) spec.comment ∷ [])
  permitted (Action.set_user_ids name owner expect) = then_go (expect_user name expect) λ _.
      then_go (uid_free name owner.0) λ _.
        then_go
          (exists name (text "a group with gid " ++ decimal owner.1) (text "no such group")
            (group_with_gid owner.1))
          λ _. Accounted.go (Action.set_user_ids name expect owner ∷ [])
  permitted (Action.delete_user name expect comment) = then_go (expect_user name expect) λ found.
      then_go (same_comment name comment found)
        λ _. Accounted.go (Action.add_user (spec_of name found) ∷ [])
  permitted (Action.add_member name who) =
      then_go (exists name (text "a group") (text "no group") (group name)) λ _.
        then_go (exists name (text "user " ++ who) (text "no user") (user who))
          λ _. Accounted.go (Action.remove_member name who ∷ [])
  permitted (Action.remove_member name who) =
      then_go (exists name (text "a group") (text "no group") (group name))
        λ _. Accounted.go (Action.add_member name who ∷ [])
  permitted _ = Accounted.go []

  unfoldable pub account_precondition : Action → Accounted
  unfolding done_already permitted
  account_precondition action = if done_already action then Accounted.done else permitted action
