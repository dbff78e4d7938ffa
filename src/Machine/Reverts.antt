-- ===== src/Machine/Reverts.antt =====
-- Each change of one group or one user is taken back by what undoes it.
pub mod Groups
pub mod Users
use mathlib.Core.Path.{subst}
use mix.Base.{
  ℕ, ◌<◌, ◌+◌, List, [], ◌∷◌, Option, none, some, some_inj, Bool, true, false, if◌then◌else◌, ◌==◌,
  nat_eq, text_eq, ==_refl, contains, contains-count, count, Text, ◌≡◌, refl, arith, sym, ◌∙◌, ap,
  inl, inr, Bool-cases, Option-cases, ltb,
}
use mathlib.Core.Option
use mix.Effect.Types.{Owner}
use mix.Effect.Action.{Action}
use mix.Effect.Observe.{GroupFacts, UserFacts}
use mix.Effect.Accounts.{Accounted, account_precondition, same_ids}
use mix.Declared.Order.{Ascending}
use mix.Machine.Map.{lookup, change, change_all, insert, remove}
use mix.Machine.Map.Laws.{
  lookup-insert, lookup-change, insert-Sorted, change-Sorted, change_all-Sorted, remove-Sorted,
}
use mix.Machine.Map.Undo.{remove-insert, change-change, change_all-change_all}
use mix.Machine.World.{World, accounts_of, perform, with_member, without_member}
use mix.Machine.Members.{
  count-with_member, count-without_member, with_member-Ascending, without_member-Ascending,
  group-ext, gid-with_member, gid-without_member,
}
use mix.Machine.Valid.{IsValid, applied}
use mix.Machine.Succeeds.{
  applied-cons, delete_group-Succeeds, set_group_gid-Succeeds, set_user_ids-Succeeds,
  remove_member-Succeeds, add_member-Succeeds,
}
use mix.Machine.Permits.{
  add_group-goes, set_group_gid-goes, set_user_ids-goes, add_member-goes, remove_member-goes,
}
use mix.Machine.Changes.{
  lookup-change_self, lookup-insert_self, lookup-change_else, contains-false, contains-true,
  left_again, joined_again,
}

-- What undoes the action, run behind it, gives the machine back.
abbrev pub Reverts : Action → World → Type 0
Reverts action w =
    (undo : List Action)
    → account_precondition (accounts_of w) action ≡ Accounted.go undo
    → applied undo (perform action w) ≡ some w

module _ (w : World) (valid : IsValid w) where
  -- If nobody but a missing group has an id, it is no user's primary group.
  nobodys :
      (name : Text) (gid : ℕ)
      → ((n : Text) (g : GroupFacts) → lookup n w.groups ≡ some g → g.gid ≡ gid → n ≡ name)
      → ((g : GroupFacts) → lookup name w.groups ≡ some g → (g.gid == gid) ≡ false)
      → (n : Text) (u : UserFacts) → lookup n w.users ≡ some u
      → (u.gid == gid) ≡ false
  nobodys name gid free not_it n u user =
      let (m, g, found, has) = valid.primary_exists n u user in
      elim (Bool-cases (u.gid == gid)) [
        | inr apart ↦ apart
        | inl is ↦
            let same : g.gid ≡ gid = has ∙ (nat_eq.same_iff u.gid gid).0 is in
            let at : lookup name w.groups ≡ some g =
              ap (λ k. lookup k w.groups) (sym (free m g found same)) ∙ found in
            absurd (ground (arith, not_it g at, same))
      ]

  pub add_group-Reverts : (name : Text) (gid : ℕ) → Reverts (Action.add_group name gid) w
  unfolding perform
  add_group-Reverts name gid undo h =
      let (missing, free, e) = add_group-goes w valid name gid undo h in
      let new : GroupFacts = record { gid = gid; members = [] } in
      let w' = perform (Action.add_group name gid) w in
      let step = applied-cons (Action.delete_group name gid) [] w' (
        delete_group-Succeeds w' (insert-Sorted name new w.groups valid.groups_sorted)
          valid.users_sorted name gid new (lookup-insert_self name new w.groups) refl
          (nobodys name gid free (λ g found. absurd (cc (missing, found))))) in
      rw e (
        step
        ∙ ap (λ groups. some (record w { groups = groups }))
            (remove-insert w.groups valid.groups_sorted name new missing))

  -- Behind a change of one group, the only group with its former id is that one.
  gid_else :
      (name : Text) (g : GroupFacts)
      → lookup name w.groups ≡ some g
      → (gid : ℕ) → g.gid ≡ gid
      → (f : GroupFacts → GroupFacts) (n : Text) (h : GroupFacts)
      → lookup n (change name f w.groups) ≡ some h
      → h.gid ≡ gid
      → n ≡ name
  gid_else name g found gid has f n h found' has' = elim (Bool-cases (name == n)) [
    | inl is ↦ sym ((text_eq.same_iff name n).0 is)
    | inr other ↦
        valid.gids_differ n name h g (lookup-change_else n name f w.groups h found' other) found
          (has' ∙ sym has)
  ]

  pub set_group_gid-Reverts :
      (name : Text) (gid expect : ℕ) → Reverts (Action.set_group_gid name gid expect) w
  unfolding perform
  set_group_gid-Reverts name gid expect undo h =
      let (g, found, has, apart, free, e) = set_group_gid-goes w valid name gid expect undo h in
      let put = λ (x : ℕ) (group : GroupFacts). record group { gid = x } in
      let move = λ (from to : ℕ) (user : UserFacts).
        if user.gid == from then record user { gid = to } else user in
      let w' = perform (Action.set_group_gid name gid expect) w in
      let found' = lookup-change_self name (put gid) w.groups g found in
      let step = applied-cons (Action.set_group_gid name expect gid) [] w' (
        set_group_gid-Succeeds w' (change-Sorted name (put gid) w.groups valid.groups_sorted)
          (change_all-Sorted (move expect gid) w.users valid.users_sorted) name expect gid
          (put gid g) found' refl apart (gid_else name g found expect has (put gid))) in
      let groups =
        change-change w.groups valid.groups_sorted name (put gid) (put expect)
          (λ v f. let same : v ≡ g = some_inj (sym f ∙ found) in ground (arith, same, has)) in
      let users =
        change_all-change_all w.users valid.users_sorted (move expect gid) (move gid expect)
          (λ n u user.
            let away =
              nobodys name gid free
                (λ x f.
                  let same : x ≡ g = some_inj (sym f ∙ found) in ground (arith, same, has, apart))
                n u user in
            ground (arith, away)) in
      rw e (step ∙ λ i. some (record w { groups = groups i; users = users i }))

  uid_else :
      (name : Text) (u : UserFacts)
      → lookup name w.users ≡ some u
      → (uid : ℕ) → u.uid ≡ uid
      → (f : UserFacts → UserFacts) (n : Text) (v : UserFacts)
      → lookup n (change name f w.users) ≡ some v
      → v.uid ≡ uid
      → n ≡ name
  uid_else name u found uid has f n v found' has' = elim (Bool-cases (name == n)) [
    | inl is ↦ sym ((text_eq.same_iff name n).0 is)
    | inr other ↦
        valid.uids_differ n name v u (lookup-change_else n name f w.users v found' other) found
          (has' ∙ sym has)
  ]

  pub set_user_ids-Reverts :
      (name : Text) (owner expect : Owner) → Reverts (Action.set_user_ids name owner expect) w
  unfolding perform
  set_user_ids-Reverts name (uid, gid) (uid', gid') undo h =
      let (u, found, has, apart, _, _, e) =
        set_user_ids-goes w valid name (uid, gid) (uid', gid') undo h in
      let put = λ (x y : ℕ) (user : UserFacts). record user { uid = x; gid = y } in
      let w' = perform (Action.set_user_ids name (uid, gid) (uid', gid')) w in
      let (m, g, found', has') = valid.primary_exists name u found in
      let is_uid : u.uid ≡ uid' = ground (arith, has) in
      let is_gid : u.gid ≡ gid' = ground (arith, has) in
      let step = applied-cons (Action.set_user_ids name (uid', gid') (uid, gid)) [] w' (
        set_user_ids-Succeeds w' valid.groups_sorted
          (change-Sorted name (put uid gid) w.users valid.users_sorted) name (uid', gid') (uid, gid)
          (put uid gid u) m g (lookup-change_self name (put uid gid) w.users u found) (ground arith)
          (ground (arith, apart, is_uid, is_gid)) (uid_else name u found uid' is_uid (put uid gid))
          found' (has' ∙ is_gid)) in
      let users =
        change-change w.users valid.users_sorted name (put uid gid) (put uid' gid') (λ v f.
          let same : v ≡ u = some_inj (sym f ∙ found) in ground (arith, same, is_uid, is_gid)) in
      rw e (step ∙ ap (λ x. some (record w { users = x })) users)

  pub add_member-Reverts : (name who : Text) → Reverts (Action.add_member name who) w
  unfolding perform
  add_member-Reverts name who undo h =
      let (g, found, apart, _, e) = add_member-goes w valid name who undo h in
      let w' = perform (Action.add_member name who) w in
      let once' = count-with_member who who g in
      let among : contains (with_member who g).members who ≡ true =
        contains-count (with_member who g).members who ∙ ground (arith, once', ==_refl who) in
      let step = applied-cons (Action.remove_member name who) [] w' (
        remove_member-Succeeds w'
          (change-Sorted name (with_member who) w.groups valid.groups_sorted) valid.users_sorted
          name who (with_member who g) (lookup-change_self name (with_member who) w.groups g found)
          among) in
      let groups =
        change-change w.groups valid.groups_sorted name (with_member who) (without_member who)
          (λ v f. left_again v who (valid.members_ascend name v f) (
            contains-false v.members who (
              ap (λ (x : GroupFacts). contains x.members who) (some_inj (sym f ∙ found))
              ∙ apart))) in
      rw e (step ∙ ap (λ x. some (record w { groups = x })) groups)

  pub remove_member-Reverts : (name who : Text) → Reverts (Action.remove_member name who) w
  unfolding perform
  remove_member-Reverts name who undo h =
      let (g, found, among, e) = remove_member-goes w valid name who undo h in
      let w' = perform (Action.remove_member name who) w in
      let (u, user) = valid.members_exist name who g found (contains-true g.members who among) in
      let none' = count-without_member who who g in
      let apart : contains (without_member who g).members who ≡ false =
        contains-count (without_member who g).members who ∙ ground (arith, none', ==_refl who) in
      let step = applied-cons (Action.add_member name who) [] w' (
        add_member-Succeeds w'
          (change-Sorted name (without_member who) w.groups valid.groups_sorted) valid.users_sorted
          name who (without_member who g) u
          (lookup-change_self name (without_member who) w.groups g found) user apart) in
      let groups =
        change-change w.groups valid.groups_sorted name (without_member who) (with_member who)
          (λ v f.
            let same : v ≡ g = some_inj (sym f ∙ found) in
            joined_again v who (valid.members_ascend name v f) (
              omega (
                arith,
                valid.members_once name who v f,
                ap (λ (x : GroupFacts). count who x.members) same,
                contains-true g.members who among,
              ))) in
      rw e (step ∙ ap (λ x. some (record w { groups = x })) groups)
