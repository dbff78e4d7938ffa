-- ===== src/Machine/Reverts/Users.antt =====
-- A user who was added is deleted, and a deleted one is added, with the groups they were in.
use mathlib.Core.Path.{subst}
use mathlib.Core.Option
use mix.Base.{
  ℕ, zero, suc, ◌⊎◌, ◌<◌, List, [], ◌∷◌, none, some, is_some, Bool, true, nat_eq, text_eq, ==_refl,
  contains, contains-count, count, all, Text, ◌≡◌, refl, arith, sym, ◌∙◌, ap, inl, inr,
  Option-cases,
}
use mix.Effect.Types.{Owner, UserSpec}
use mix.Effect.Action.{Action}
use mix.Effect.Observe.{GroupFacts, UserFacts}
use mix.Effect.Accounts.{spec_of}
use mix.Machine.Map.{lookup, remove, change_all, keys_of}
use mix.Machine.Map.Laws.{
  lookup-remove, lookup-change_all, insert-Sorted, remove-Sorted, change_all-Sorted,
}
use mix.Machine.Map.Same.{lookup-ext, count-keys_of}
use mix.Machine.Map.Undo.{insert-remove, remove-insert}
use mix.Machine.World.{World, accounts_of, perform, without_member, join_groups, facts_of}
use mix.Machine.Members.{gid-without_member}
use mix.Machine.Valid.{IsValid}
use mix.Machine.Succeeds.{applied-cons, delete_user-Succeeds, add_user-Succeeds}
use mix.Machine.Permits.{add_user-goes, delete_user-goes}
use mix.Machine.Reverts.{Reverts}
use mix.Machine.Changes.{lookup-insert_self}
use mix.Machine.Joining.{
  Joined, join_groups-Sorted, lookup-join_groups-none, lookup-join_groups, without-Joined,
  Joined-without,
}

module _ (w : World) (valid : IsValid w) where
  -- A user who is missing is no member.
  pub not_member :
      (who n : Text) (g : GroupFacts)
      → lookup who w.users ≡ none
      → lookup n w.groups ≡ some g
      → count who g.members ≡ 0
  not_member who n g missing found = elim (zero_or_more (count who g.members)) [
    | inl zero' ↦ zero'
    | inr more ↦
        let (u, user) = valid.members_exist n who g found more in absurd (cc (user, missing))
  ]
    where
      zero_or_more : (k : ℕ) → (k ≡ 0) ⊎ (0 < k)
      zero_or_more zero = inl refl
      zero_or_more (suc k) = inr (omega arith)

  left :
      (who n : Text) (names : List Text)
      → lookup who w.users ≡ none
      → Option.map (without_member who) (lookup n (join_groups who names w.groups))
        ≡ lookup n w.groups
  left who n names missing = elim (Option-cases (lookup n w.groups)) [
    | inl none' ↦ rw (lookup-join_groups-none who n names w.groups none', none') refl
    | inr (g, found) ↦
        let (g', found', joined) = lookup-join_groups who n names w.groups g found in
        rw (found', found)
          (ap some (
            without-Joined who (count n names) g g' joined (valid.members_ascend n g found)
              (not_member who n g missing found)))
  ]

  pub add_user-Reverts : (spec : UserSpec) → Reverts (Action.add_user spec) w
  unfolding perform
  add_user-Reverts spec undo h =
      let (missing, _, _, _, e) = add_user-goes w valid spec undo h in
      let w' = perform (Action.add_user spec) w in
      let joined = join_groups spec.name spec.groups w.groups in
      let joined_sorted = join_groups-Sorted spec.name spec.groups w.groups valid.groups_sorted in
      let step =
        applied-cons (Action.delete_user spec.name (spec.uid, spec.gid) spec.comment) [] w' (
          delete_user-Succeeds w' joined_sorted
            (insert-Sorted spec.name (facts_of spec) w.users valid.users_sorted) spec.name
            (spec.uid, spec.gid) spec.comment (facts_of spec)
            (lookup-insert_self spec.name (facts_of spec) w.users) (ground arith) refl) in
      let users = remove-insert w.users valid.users_sorted spec.name (facts_of spec) missing in
      let groups =
        lookup-ext (change_all (without_member spec.name) joined) w.groups
          (change_all-Sorted (without_member spec.name) joined joined_sorted) valid.groups_sorted
          (λ n.
            lookup-change_all n (without_member spec.name) joined
            ∙ left spec.name n spec.groups missing) in
      rw e (step ∙ λ i. some (record w { groups = groups i; users = users i }))

  -- The groups that a user is in.
  abbrev groups_with : Text → List Text
  groups_with who = keys_of (λ group. contains group.members who) w.groups

  all-count :
      (p : Text → Bool) (xs : List Text)
      → ((x : Text) → 0 < count x xs → p x ≡ true)
      → all p xs ≡ true
  all-count p [] h = refl
  all-count p (x ∷ xs) h =
      ground (arith, h x, ==_refl x, all-count p xs (λ y more. h y (ground (arith, more))))

  groups_with-exist :
      (who : Text)
      → all (λ n. is_some (lookup n (change_all (without_member who) w.groups))) (groups_with who)
        ≡ true
  groups_with-exist who =
      all-count (λ n. is_some (lookup n (change_all (without_member who) w.groups)))
        (groups_with who)
        (λ n listed.
          let counted =
            count-keys_of (λ (g : GroupFacts). contains g.members who) n w.groups
              valid.groups_sorted in
          let there = lookup-change_all n (without_member who) w.groups in
          elim (Option-cases (lookup n w.groups)) [
            | inl none' ↦ absurd (ground (arith, listed, counted, none'))
            | inr (g, found) ↦ rw (there, found) refl
          ])

  times_member :
      (who n : Text) (g : GroupFacts)
      → lookup n w.groups ≡ some g
      → count n (groups_with who) ≡ count who g.members
  times_member who n g found =
      count-keys_of (λ (x : GroupFacts). contains x.members who) n w.groups valid.groups_sorted
      ∙ rw found (ground (arith, contains-count g.members who, valid.members_once n who g found))

  back :
      (who n : Text)
      → lookup n (join_groups who (groups_with who) (change_all (without_member who) w.groups))
        ≡ lookup n w.groups
  back who n =
      let there = lookup-change_all n (without_member who) w.groups in
      let groups = change_all (without_member who) w.groups in
      elim (Option-cases (lookup n w.groups)) [
        | inl none' ↦
            lookup-join_groups-none who n (groups_with who) groups (there ∙ rw none' refl)
            ∙ sym none'
        | inr (g, found) ↦
            let (g', found', joined) =
              lookup-join_groups who n (groups_with who) groups (without_member who g)
                (there ∙ rw found refl) in
            found'
            ∙ ap some (
                Joined-without who g g'
                  (subst (λ t. Joined who t (without_member who g) g') (times_member who n g found)
                    joined)
                  (valid.members_ascend n g found))
            ∙ sym found
      ]

  else_user :
      (name n : Text) (v : UserFacts)
      → lookup n (remove name w.users) ≡ some v
      → lookup n w.users ≡ some v
  else_user name n v found = ground (arith, found, lookup-remove n name w.users valid.users_sorted)

  pub delete_user-Reverts :
      (name : Text) (expect : Owner) (comment : Text)
      → Reverts (Action.delete_user name expect comment) w
  unfolding perform spec_of
  delete_user-Reverts name expect comment undo h =
      let (u, found, e) = delete_user-goes w valid name expect comment undo h in
      let spec = spec_of (accounts_of w) name u in
      let w' = perform (Action.delete_user name expect comment) w in
      let groups' = change_all-Sorted (without_member name) w.groups valid.groups_sorted in
      let here = λ (n : Text). lookup-remove n name w.users valid.users_sorted in
      let (m, g, primary, has) = valid.primary_exists name u found in
      let step = applied-cons (Action.add_user spec) [] w' (
        add_user-Succeeds w' groups' (remove-Sorted name w.users valid.users_sorted) spec m
          (without_member name g) (here name ∙ rw (==_refl name) refl)
          (λ n v found' has'. valid.uids_differ n name v u (else_user name n v found') found has')
          (lookup-change_all m (without_member name) w.groups ∙ rw primary refl)
          (gid-without_member name g ∙ has) (groups_with-exist name)) in
      let users = insert-remove w.users valid.users_sorted name u found in
      let joined =
        join_groups name (groups_with name) (change_all (without_member name) w.groups) in
      let groups =
        lookup-ext joined w.groups
          (join_groups-Sorted name (groups_with name) (change_all (without_member name) w.groups)
            groups')
          valid.groups_sorted (back name) in
      rw e (step ∙ λ i. some (record w { groups = groups i; users = users i }))
