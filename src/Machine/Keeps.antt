-- ===== src/Machine/Keeps.antt =====
-- Every action on groups that is let through keeps the groups and users valid.
pub mod Users
use mathlib.Core.Path.{subst}
use mix.Base.{
  ℕ, ◌<◌, ◌≤◌, ◌+◌, List, [], ◌∷◌, Option, none, some, some_inj, Bool, true, false, if◌then◌else◌,
  ◌==◌, nat_eq, text_eq, ==_refl, contains, contains-count, count, Text, ◌≡◌, refl, arith, sym, ◌∙◌,
  ap, inl, inr, Bool-cases,
}
use mix.Effect.Action.{Action}
use mix.Effect.Observe.{GroupFacts, UserFacts}
use mix.Effect.Accounts.{Accounted, account_precondition}
use mix.Declared.Order.{Ascending}
use mix.Machine.Map.{Map, lookup, insert, remove, change, change_all, Sorted}
use mix.Machine.Map.Laws.{insert-Sorted, change-Sorted, change_all-Sorted, remove-Sorted}
use mix.Machine.Map.Found.{
  found-insert, found-remove, found-change, found-change_all, insert-keeps, remove-keeps,
  change_all-keeps, change-keeps,
}
use mix.Machine.World.{World, accounts_of, perform, with_member, without_member}
use mix.Machine.Members.{
  count-with_member, count-without_member, with_member-Ascending, without_member-Ascending,
  gid-with_member, gid-without_member,
}
use mix.Machine.Valid.{IsValid}
use mix.Machine.Permits.{
  add_group-goes, set_group_gid-goes, delete_group-goes, add_member-goes, remove_member-goes,
}
use mix.Machine.Fits.{
  Found, Fits, GidsDiffer, UidsDiffer, HasGid, IsValid-of, Regroups, Regroups-GidsDiffer,
  Regroups-HasGid, change-Regroups, change_all-Regroups,
}

module _ (w : World) (valid : IsValid w) where
  pub fits : (n : Text) (g : GroupFacts) → lookup n w.groups ≡ some g → Fits w.users g
  fits n g found = (
    valid.members_ascend n g found,
    λ p. valid.members_once n p g found,
    λ p. valid.members_exist n p g found,
  )

  -- A change of the members of one group.
  member-IsValid :
      (k : Text) (f : GroupFacts → GroupFacts)
      → ((g : GroupFacts) → (f g).gid ≡ g.gid)
      → ((g : GroupFacts) → lookup k w.groups ≡ some g → Fits w.users (f g))
      → IsValid (record w { groups = change k f w.groups })
  member-IsValid k f same suits =
      let r = change-Regroups k f w.groups same in
      IsValid-of (record w { groups = change k f w.groups })
        (change-Sorted k f w.groups valid.groups_sorted) valid.users_sorted
        (λ n g' found. elim (found-change n k f g' w.groups found) [
          | inl (e, (g, at, is)) ↦
              subst (Fits w.users) is (suits g (ap (λ x. lookup x w.groups) e ∙ at))
          | inr (_, at) ↦ fits n g' at
        ])
        (Regroups-GidsDiffer w.groups (change k f w.groups) r valid.gids_differ) valid.uids_differ
        (λ n u user.
          Regroups-HasGid w.groups (change k f w.groups) r u.gid (valid.primary_exists n u user))

  pub add_member-IsValid :
      (name who : Text) (undo : List Action)
      → account_precondition (accounts_of w) (Action.add_member name who) ≡ Accounted.go undo
      → IsValid (perform (Action.add_member name who) w)
  unfolding perform
  add_member-IsValid name who undo h =
      let (g, found, apart, user, _) = add_member-goes w valid name who undo h in
      member-IsValid name (with_member who) (gid-with_member who) (λ x at.
        let same : x ≡ g = some_inj (sym at ∙ found) in
        let none' : count who x.members ≡ 0 = ground (
          arith,
          contains-count g.members who,
          apart,
          ap (λ (y : GroupFacts). count who y.members) same,
        ) in
        (
          with_member-Ascending who x,
          λ p. ground (
            arith,
            count-with_member p who x,
            none',
            text_eq.same_iff who p,
            valid.members_once name p x at,
          ),
          λ p more. elim (Bool-cases (who == p)) [
            | inl is ↦ subst (λ q. Found w.users q) ((text_eq.same_iff who p).0 is) user
            | inr other ↦
                valid.members_exist name p x at
                  (ground (arith, more, count-with_member p who x, other))
          ],
        ))

  -- Who leaves a group needs to be no user.
  pub left-Fits :
      (name who : Text) (g : GroupFacts)
      → lookup name w.groups ≡ some g
      → (users : Map UserFacts)
      → ((p : Text) → (who == p) ≡ false → Found w.users p → Found users p)
      → Fits users (without_member who g)
  left-Fits name who g at users stay = (
    without_member-Ascending who g (valid.members_ascend name g at),
    λ p. ground (arith, count-without_member p who g, valid.members_once name p g at),
    λ p more. elim (Bool-cases (who == p)) [
      | inl is ↦ absurd (ground (arith, more, count-without_member p who g, is))
      | inr other ↦ stay p other (
          valid.members_exist name p g at
            (ground (arith, more, count-without_member p who g, other)))
    ],
  )

  pub remove_member-IsValid :
      (name who : Text) (undo : List Action)
      → account_precondition (accounts_of w) (Action.remove_member name who) ≡ Accounted.go undo
      → IsValid (perform (Action.remove_member name who) w)
  unfolding perform
  remove_member-IsValid name who undo h =
      member-IsValid name (without_member who) (gid-without_member who)
        (λ x at. left-Fits name who x at w.users (λ p _ there. there))

  name_apart :
      (m name : Text) (g : GroupFacts)
      → lookup m w.groups ≡ some g
      → lookup name w.groups ≡ none
      → (name == m) ≡ false
  name_apart m name g found missing = elim (Bool-cases (name == m)) [
    | inr other ↦ other
    | inl is ↦
        let at = ap (λ x. lookup x w.groups) ((text_eq.same_iff name m).0 is) in
        absurd (cc (at, found, missing))
  ]

  pub add_group-IsValid :
      (name : Text) (gid : ℕ) (undo : List Action)
      → account_precondition (accounts_of w) (Action.add_group name gid) ≡ Accounted.go undo
      → IsValid (perform (Action.add_group name gid) w)
  unfolding perform
  add_group-IsValid name gid undo h =
      let (missing, free, _) = add_group-goes w valid name gid undo h in
      let new : GroupFacts = record { gid = gid; members = [] } in
      IsValid-of (perform (Action.add_group name gid) w)
        (insert-Sorted name new w.groups valid.groups_sorted) valid.users_sorted
        (λ n g found. elim (found-insert n name new g w.groups found) [
          | inl (_, e) ↦
              subst (Fits w.users) e (tt, λ p. omega arith, λ p more. absurd (omega (arith, more)))
          | inr (_, at) ↦ fits n g at
        ])
        (λ n m g k found found' same. elim (found-insert n name new g w.groups found) [
          | inl (e, is) ↦ elim (found-insert m name new k w.groups found') [
            | inl (e', _) ↦ sym e ∙ e'
            | inr (_, at') ↦ sym e ∙ sym (free m k at' (sym same ∙ ap (λ x. x.gid) (sym is)))
          ]
          | inr (_, at) ↦ elim (found-insert m name new k w.groups found') [
            | inl (e', is') ↦ free n g at (same ∙ ap (λ x. x.gid) (sym is')) ∙ e'
            | inr (_, at') ↦ valid.gids_differ n m g k at at' same
          ]
        ])
        valid.uids_differ
        (λ n u user.
          let (m, g, found, e) = valid.primary_exists n u user in
          (m, g, insert-keeps m name new g w.groups found (name_apart m name g found missing), e))

  -- Groups of different ids have different names.
  pub gid_apart :
      (n m : Text) (g k : GroupFacts)
      → lookup n w.groups ≡ some g
      → lookup m w.groups ≡ some k
      → (k.gid == g.gid) ≡ false
      → (n == m) ≡ false
  gid_apart n m g k found found' differ = elim (Bool-cases (n == m)) [
    | inr other ↦ other
    | inl is ↦
        let at = ap (λ x. lookup x w.groups) ((text_eq.same_iff n m).0 is) in
        let same : g ≡ k = some_inj (sym found ∙ at ∙ found') in
        absurd (ground (arith, same, differ))
  ]

  pub delete_group-IsValid :
      (name : Text) (gid : ℕ) (undo : List Action)
      → account_precondition (accounts_of w) (Action.delete_group name gid) ≡ Accounted.go undo
      → IsValid (perform (Action.delete_group name gid) w)
  unfolding perform
  delete_group-IsValid name gid undo h =
      let (g, found, has, nobody, _) = delete_group-goes w valid name gid undo h in
      let back = λ (n : Text) (x : GroupFacts) (at : lookup n (remove name w.groups) ≡ some x).
        (found-remove n name x w.groups valid.groups_sorted at).1 in
      IsValid-of (perform (Action.delete_group name gid) w)
        (remove-Sorted name w.groups valid.groups_sorted) valid.users_sorted
        (λ n x at. fits n x (back n x at))
        (λ n m x y at at' same. valid.gids_differ n m x y (back n x at) (back m y at') same)
        valid.uids_differ
        (λ n u user.
          let (m, x, at, e) = valid.primary_exists n u user in
          (
            m,
            x,
            remove-keeps m name x w.groups valid.groups_sorted at
                (gid_apart name m g x found at (ground (arith, nobody n u user, has, e))),
            e,
          ))
