-- ===== src/Machine/Valid.antt =====
-- What holds of the groups and users of a machine whose actions can be undone.
use mix.Base.{
  ◌≤◌, ◌<◌, Option, some, none, Text, ◌≡◌, count, text_eq, List, [], ◌∷◌, Bool, true, false,
}
use mix.Effect.Action.{Action}
use mix.Effect.Observe.{GroupFacts, UserFacts}
use mix.Effect.Failure.{Outcome}
use mix.Declared.Order.{Ascending}
use mix.Machine.Map.{lookup, Sorted}
use mix.Machine.World.{World, apply}

-- No two groups share an id and no two users do, members are listed in order, once, and are users,
-- and the primary group of each user exists.
pub record IsValid (w : World) : Type 0 where
  pub groups_sorted : Sorted w.groups
  pub users_sorted : Sorted w.users
  pub members_ascend :
      (n : Text) (g : GroupFacts) → lookup n w.groups ≡ some g → Ascending g.members
  pub members_once :
      (n p : Text) (g : GroupFacts) → lookup n w.groups ≡ some g → count p g.members ≤ 1
  pub members_exist :
      (n p : Text) (g : GroupFacts)
      → lookup n w.groups ≡ some g
      → 0 < count p g.members
      → (u : UserFacts) × (lookup p w.users ≡ some u)
  pub gids_differ :
      (n m : Text) (g h : GroupFacts)
      → lookup n w.groups ≡ some g
      → lookup m w.groups ≡ some h
      → g.gid ≡ h.gid
      → n ≡ m
  pub uids_differ :
      (n m : Text) (u v : UserFacts)
      → lookup n w.users ≡ some u
      → lookup m w.users ≡ some v
      → u.uid ≡ v.uid
      → n ≡ m
  pub primary_exists :
      (n : Text) (u : UserFacts)
      → lookup n w.users ≡ some u
      → (m : Text) × (g : GroupFacts) × (lookup m w.groups ≡ some g) × (g.gid ≡ u.gid)

-- An action on groups and users.
abbrev pub on_accounts : Action → Bool
on_accounts (Action.add_group _ _) = true
on_accounts (Action.set_group_gid _ _ _) = true
on_accounts (Action.delete_group _ _) = true
on_accounts (Action.add_user _) = true
on_accounts (Action.set_user_ids _ _ _) = true
on_accounts (Action.delete_user _ _ _) = true
on_accounts (Action.add_member _ _) = true
on_accounts (Action.remove_member _ _) = true
on_accounts _ = false

abbrev pub onward : Outcome × World → (World → Option World) → Option World
onward (Outcome.ok _, w) rest = rest w
onward (Outcome.err _, w) rest = none

-- The actions one after the other, as an undo list runs, if each of them succeeds.
abbrev pub applied : List Action → World → Option World
applied [] w = some w
applied (action ∷ rest) w = onward (apply action w) (applied rest)
