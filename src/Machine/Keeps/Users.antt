-- ===== src/Machine/Keeps/Users.antt =====
-- Every action on users that is let through keeps the groups and users valid, and so does a new id
-- of a group, which its users get too.
use mathlib.Core.Path.{subst}
use mix.Base.{
  ℕ, ◌≤◌, List, some, some_inj, false, if◌then◌else◌, ◌==◌, nat_eq, text_eq, count, Text, ◌≡◌, refl,
  arith, sym, ◌∙◌, ap, inl, inr, Bool-cases, Option-cases,
}
use mix.Effect.Types.{Owner, UserSpec}
use mix.Effect.Action.{Action}
use mix.Effect.Observe.{GroupFacts, UserFacts}
use mix.Effect.Accounts.{Accounted, account_precondition}
use mix.Machine.Map.{Map, lookup, insert, remove, change, change_all}
use mix.Machine.Map.Laws.{
  lookup-change, lookup-insert, insert-Sorted, change-Sorted, change_all-Sorted, remove-Sorted,
}
use mix.Machine.Map.Found.{
  found-insert, found-remove, found-change, found-change_all, insert-keeps, remove-keeps,
  change_all-keeps, change-keeps,
}
use mix.Machine.World.{World, accounts_of, perform, without_member, join_groups, facts_of}
use mix.Machine.Members.{gid-without_member}
use mix.Machine.Valid.{IsValid}
use mix.Machine.Permits.{set_group_gid-goes, add_user-goes, set_user_ids-goes}
use mix.Machine.Changes.{lookup-change_self, lookup-insert_self}
use mix.Machine.Joining.{Joined, join_groups-Sorted, lookup-join_groups, lookup-join_groups-none}
use mix.Machine.Reverts.Users.{not_member}
use mix.Machine.Keeps.{fits, left-Fits, gid_apart}
use mix.Machine.Fits.{
  Found, Fits, HasGid, IsValid-of, Regroups, Regroups-GidsDiffer, Regroups-HasGid,
  change_all-Regroups,
}

-- As many users are there, and members still fit.
Fits-mono :
    (users users' : Map UserFacts) (g : GroupFacts)
    → ((p : Text) → Found users p → Found users' p)
    → Fits users g
    → Fits users' g
Fits-mono users users' g keep f = (f.0, f.1, λ p more. keep p (f.2 p more))

join_groups-found :
    (who n : Text) (names : List Text) (m : Map GroupFacts) (g' : GroupFacts)
    → lookup n (join_groups who names m) ≡ some g'
    → (g : GroupFacts) × (lookup n m ≡ some g) × Joined who (count n names) g g'
join_groups-found who n names m g' found = elim (Option-cases (lookup n m)) [
  | inl none' ↦ absurd (cc (found, lookup-join_groups-none who n names m none'))
  | inr (g, at) ↦
      let (k, found', joined) = lookup-join_groups who n names m g at in
      (g, at, subst (Joined who (count n names) g) (some_inj (sym found' ∙ found)) joined)
]

join_groups-Regroups :
    (who : Text) (names : List Text) (m : Map GroupFacts) → Regroups m (join_groups who names m)
join_groups-Regroups who names m = record {
  back = λ n g' found.
      let (g, at, j) = join_groups-found who n names m g' found in (g, at, j.same_gid);
  forth = λ n g found.
      let (g', at, j) = lookup-join_groups who n names m g found in (g', at, j.same_gid);
}

change-else :
    (n k : Text) (f : GroupFacts → GroupFacts) (x : GroupFacts) (m : Map GroupFacts)
    → lookup n m ≡ some x
    → (k == n) ≡ false
    → lookup n (change k f m) ≡ some x
change-else n k f x m h other = lookup-change n k f m ∙ rw other h

module _ (w : World) (valid : IsValid w) where
  user_stays :
      (name : Text) (new : UserFacts) (p : Text)
      → Found w.users p
      → Found (insert name new w.users) p
  user_stays name new p (u, user) = elim (Bool-cases (name == p)) [
    | inl is ↦ (new, lookup-insert p name new w.users ∙ rw is refl)
    | inr other ↦ (u, insert-keeps p name new u w.users user other)
  ]

  pub delete_user-IsValid :
      (name : Text) (expect : Owner) (comment : Text)
      → IsValid (perform (Action.delete_user name expect comment) w)
  unfolding perform
  delete_user-IsValid name expect comment =
      let groups = change_all (without_member name) w.groups in
      let r = change_all-Regroups (without_member name) w.groups (gid-without_member name) in
      let back = λ (n : Text) (x : UserFacts) (at : lookup n (remove name w.users) ≡ some x).
        (found-remove n name x w.users valid.users_sorted at).1 in
      IsValid-of (perform (Action.delete_user name expect comment) w)
        (change_all-Sorted (without_member name) w.groups valid.groups_sorted)
        (remove-Sorted name w.users valid.users_sorted)
        (λ n g' found.
          let (g, at, e) = found-change_all n (without_member name) g' w.groups found in
          subst (Fits (remove name w.users)) e (
            left-Fits w valid n name g at (remove name w.users) (λ p other (u, user).
              (u, remove-keeps p name u w.users valid.users_sorted user other))))
        (Regroups-GidsDiffer w.groups groups r valid.gids_differ)
        (λ n m x y at at' same. valid.uids_differ n m x y (back n x at) (back m y at') same)
        (λ n u user.
          Regroups-HasGid w.groups groups r u.gid (valid.primary_exists n u (back n u user)))

  pub add_user-IsValid :
      (spec : UserSpec) (undo : List Action)
      → account_precondition (accounts_of w) (Action.add_user spec) ≡ Accounted.go undo
      → ((n : Text) → count n spec.groups ≤ 1)
      → IsValid (perform (Action.add_user spec) w)
  unfolding perform
  add_user-IsValid spec undo h distinct =
      let (missing, free, primary, _, _) = add_user-goes w valid spec undo h in
      let new = facts_of spec in
      let groups = join_groups spec.name spec.groups w.groups in
      let users = insert spec.name new w.users in
      let r = join_groups-Regroups spec.name spec.groups w.groups in
      let keep = λ (p : Text) (f : Found w.users p). user_stays spec.name new p f in
      IsValid-of (perform (Action.add_user spec) w)
        (join_groups-Sorted spec.name spec.groups w.groups valid.groups_sorted)
        (insert-Sorted spec.name new w.users valid.users_sorted)
        (λ n g' found.
          let (g, at, j) = join_groups-found spec.name n spec.groups w.groups g' found in
          let zero' = not_member w valid spec.name n g missing at in
          (
            j.ascends (valid.members_ascend n g at),
            λ p. ground (
              arith,
              j.counted p,
              zero',
              distinct n,
              text_eq.same_iff spec.name p,
              valid.members_once n p g at,
            ),
            λ p more. elim (Bool-cases (spec.name == p)) [
              | inl is ↦
                  subst (Found users) ((text_eq.same_iff spec.name p).0 is)
                    (new, lookup-insert_self spec.name new w.users)
              | inr other ↦
                  keep p (valid.members_exist n p g at (ground (arith, more, j.counted p, other)))
            ],
          ))
        (Regroups-GidsDiffer w.groups groups r valid.gids_differ)
        (λ n m x y found found' same. elim (found-insert n spec.name new x w.users found) [
          | inl (e, is) ↦ elim (found-insert m spec.name new y w.users found') [
            | inl (e', _) ↦ sym e ∙ e'
            | inr (_, at') ↦ sym e ∙ sym (free m y at' (sym same ∙ ap (λ u. u.uid) (sym is)))
          ]
          | inr (_, at) ↦ elim (found-insert m spec.name new y w.users found') [
            | inl (e', is') ↦ free n x at (same ∙ ap (λ u. u.uid) (sym is')) ∙ e'
            | inr (_, at') ↦ valid.uids_differ n m x y at at' same
          ]
        ])
        (λ n u user. elim (found-insert n spec.name new u w.users user) [
          | inl (_, is) ↦
              subst (λ (v : UserFacts). HasGid groups v.gid) is
                (Regroups-HasGid w.groups groups r spec.gid primary)
          | inr (_, at) ↦ Regroups-HasGid w.groups groups r u.gid (valid.primary_exists n u at)
        ])

  pub set_user_ids-IsValid :
      (name : Text) (owner expect : Owner) (undo : List Action)
      → account_precondition (accounts_of w) (Action.set_user_ids name owner expect)
        ≡ Accounted.go undo
      → IsValid (perform (Action.set_user_ids name owner expect) w)
  unfolding perform
  set_user_ids-IsValid name (uid, gid) expect undo h =
      let (u, _, _, _, free, primary, _) =
        set_user_ids-goes w valid name (uid, gid) expect undo h in
      let put = λ (user : UserFacts). record user { uid = uid; gid = gid } in
      IsValid-of (perform (Action.set_user_ids name (uid, gid) expect) w) valid.groups_sorted
        (change-Sorted name put w.users valid.users_sorted)
        (λ n g found.
          Fits-mono w.users (change name put w.users) g
            (λ p (v, user).
              let (v', found', _) = change-keeps (λ _. Unit {0}) p name put v w.users user tt tt in
              (v', found'))
            (fits w valid n g found))
        valid.gids_differ
        (λ n m x y found found' same. elim (found-change n name put x w.users found) [
          | inl (e, (_, _, is)) ↦ elim (found-change m name put y w.users found') [
            | inl (e', _) ↦ sym e ∙ e'
            | inr (_, at') ↦ sym e ∙ sym (free m y at' (sym same ∙ ap (λ v. v.uid) (sym is)))
          ]
          | inr (_, at) ↦ elim (found-change m name put y w.users found') [
            | inl (e', (_, _, is')) ↦ free n x at (same ∙ ap (λ v. v.uid) (sym is')) ∙ e'
            | inr (_, at') ↦ valid.uids_differ n m x y at at' same
          ]
        ])
        (λ n v user. elim (found-change n name put v w.users user) [
          | inl (_, (_, _, is)) ↦ subst (λ (x : UserFacts). HasGid w.groups x.gid) is primary
          | inr (_, at) ↦ valid.primary_exists n v at
        ])

  pub set_group_gid-IsValid :
      (name : Text) (gid expect : ℕ) (undo : List Action)
      → account_precondition (accounts_of w) (Action.set_group_gid name gid expect)
        ≡ Accounted.go undo
      → IsValid (perform (Action.set_group_gid name gid expect) w)
  unfolding perform
  set_group_gid-IsValid name gid expect undo h =
      let (g, found, has, _, free, _) = set_group_gid-goes w valid name gid expect undo h in
      let put = λ (group : GroupFacts). record group { gid = gid } in
      let move =
        λ (user : UserFacts). if user.gid == expect then record user { gid = gid } else user in
      let groups = change name put w.groups in
      let users = change_all move w.users in
      let keep = λ (p : Text) (f : Found w.users p).
        let there : Found users p = (move f.0, change_all-keeps p move f.0 w.users f.1) in there in
      let uid_kept : (v : UserFacts) → (move v).uid ≡ v.uid = λ v. ground arith in
      IsValid-of (perform (Action.set_group_gid name gid expect) w)
        (change-Sorted name put w.groups valid.groups_sorted)
        (change_all-Sorted move w.users valid.users_sorted)
        (λ n x found'. elim (found-change n name put x w.groups found') [
          | inl (_, (y, at, is)) ↦
              subst (Fits users) is (Fits-mono w.users users y keep (fits w valid n y at))
          | inr (_, at) ↦ Fits-mono w.users users x keep (fits w valid n x at)
        ])
        (λ n m x y found' found'' same. elim (found-change n name put x w.groups found') [
          | inl (e, (_, _, is)) ↦ elim (found-change m name put y w.groups found'') [
            | inl (e', _) ↦ sym e ∙ e'
            | inr (_, at') ↦ sym e ∙ sym (free m y at' (sym same ∙ ap (λ v. v.gid) (sym is)))
          ]
          | inr (_, at) ↦ elim (found-change m name put y w.groups found'') [
            | inl (e', (_, _, is')) ↦ free n x at (same ∙ ap (λ v. v.gid) (sym is')) ∙ e'
            | inr (_, at') ↦ valid.gids_differ n m x y at at' same
          ]
        ])
        (λ n m x y found' found'' same.
          let (v, at, is) = found-change_all n move x w.users found' in
          let (v', at', is') = found-change_all m move y w.users found'' in
          valid.uids_differ n m v v' at at' (
            sym (uid_kept v) ∙ ap (λ u. u.uid) is ∙ same ∙ sym (ap (λ u. u.uid) is') ∙ uid_kept v'))
        (λ n u user.
          let (v, at, is) = found-change_all n move u w.users user in
          subst (λ (x : UserFacts). HasGid groups x.gid) is
            (elim (Bool-cases (v.gid == expect)) [
              | inl moves ↦
                  (name, put g, lookup-change_self name put w.groups g found, ground (arith, moves))
              | inr stays ↦
                  let (m, k, at', e) = valid.primary_exists n v at in
                  let apart =
                    gid_apart w valid name m g k found at' (ground (arith, stays, has, e)) in
                  (m, k, change-else m name put k w.groups at' apart, e ∙ ground (arith, stays))
            ]))
