-- ===== src/Machine/Permits.antt =====
-- What an action on groups and users finds when it is let through, and what undoes it.
use mix.Base.{
  ℕ, List, [], ◌∷◌, map, filter, none, some, is_some, Bool, true, false, not, ◌==◌, nat_eq, text_eq,
  contains, Text, text, ◌≡◌, refl, arith, sym, ◌∙◌, ap, inl, inr, Option-cases, all, ◌++◌,
}
use mix.Effect.Types.{Owner, UserSpec}
use mix.Effect.Action.{Action}
use mix.Effect.Observe.{GroupFacts, UserFacts}
use mix.Effect.Accounts.{
  Accounted, Checked, account_precondition, done_already, permitted, expect_group, expect_user,
  gid_free, uid_free, missing_groups, spec_of, same_ids, has_ids, members_of, nobodys_primary,
  same_comment,
}
use mix.Declared.Paths.{decimal}
use mix.Machine.Map.{lookup, key_of}
use mix.Machine.Map.Same.{key_of-some, key_of-none}
use mix.Machine.World.{World, accounts_of}
use mix.Machine.Valid.{IsValid}
use mix.Machine.Checks.{
  goes, then_go-goes, go_inj, no_group-ok, no_user-ok, exists-ok, group_expected-ok,
  user_expected-ok, nobodys_primary-ok, none_missing-ok, free_of-ok,
}

module _ (w : World) (valid : IsValid w) where
  gid_free-ok :
      (name : Text) (gid : ℕ) {a : Unit {0}}
      → gid_free (accounts_of w) name gid ≡ Checked.ok a
      → (n : Text) (g : GroupFacts) → lookup n w.groups ≡ some g
      → g.gid ≡ gid
      → n ≡ name
  unfolding gid_free
  gid_free-ok name gid h n g found has =
      free_of-ok (λ group. group.gid == gid) name (text "gid " ++ decimal gid) w.groups
        valid.groups_sorted
        (λ n k x y f f' p q.
          valid.gids_differ n k x y f f'
            ((nat_eq.same_iff x.gid gid).0 p ∙ sym ((nat_eq.same_iff y.gid gid).0 q)))
        h n g found ((nat_eq.same_iff g.gid gid).1 has)

  uid_free-ok :
      (name : Text) (uid : ℕ) {a : Unit {0}}
      → uid_free (accounts_of w) name uid ≡ Checked.ok a
      → (n : Text) (u : UserFacts) → lookup n w.users ≡ some u
      → u.uid ≡ uid
      → n ≡ name
  unfolding uid_free
  uid_free-ok name uid h n u found has =
      free_of-ok (λ user. user.uid == uid) name (text "uid " ++ decimal uid) w.users
        valid.users_sorted
        (λ n k x y f f' p q.
          valid.uids_differ n k x y f f'
            ((nat_eq.same_iff x.uid uid).0 p ∙ sym ((nat_eq.same_iff y.uid uid).0 q)))
        h n u found ((nat_eq.same_iff u.uid uid).1 has)

  pub add_group-goes :
      (name : Text) (gid : ℕ) (undo : List Action)
      → account_precondition (accounts_of w) (Action.add_group name gid) ≡ Accounted.go undo
      → (lookup name w.groups ≡ none)
        × ((n : Text) (g : GroupFacts) → lookup n w.groups ≡ some g → g.gid ≡ gid → n ≡ name)
        × (undo ≡ Action.delete_group name gid ∷ [])
  unfolding permitted
  add_group-goes name gid undo h =
      let (_, p) = goes (accounts_of w) (Action.add_group name gid) h in
      let (_, first, q) = then_go-goes _ _ p in
      let (_, second, r) = then_go-goes _ _ q in
      (no_group-ok name _ first, gid_free-ok name gid second, go_inj r)

  pub set_group_gid-goes :
      (name : Text) (gid expect : ℕ) (undo : List Action)
      → account_precondition (accounts_of w) (Action.set_group_gid name gid expect)
        ≡ Accounted.go undo
      → (g : GroupFacts) × (lookup name w.groups ≡ some g)
        × (g.gid ≡ expect)
        × ((gid == expect) ≡ false)
        × ((n : Text) (g : GroupFacts) → lookup n w.groups ≡ some g → g.gid ≡ gid → n ≡ name)
        × (undo ≡ Action.set_group_gid name expect gid ∷ [])
  unfolding permitted done_already expect_group
  set_group_gid-goes name gid expect undo h =
      let (apart, p) = goes (accounts_of w) (Action.set_group_gid name gid expect) h in
      let (g, first, q) = then_go-goes _ _ p in
      let (_, second, r) = then_go-goes _ _ q in
      let (found, has) = group_expected-ok name expect _ g first in
      (g, found, has, ground (arith, apart, found, has), gid_free-ok name gid second, go_inj r)

  pub delete_group-goes :
      (name : Text) (gid : ℕ) (undo : List Action)
      → account_precondition (accounts_of w) (Action.delete_group name gid) ≡ Accounted.go undo
      → (g : GroupFacts) × (lookup name w.groups ≡ some g)
        × (g.gid ≡ gid)
        × ((n : Text) (u : UserFacts) → lookup n w.users ≡ some u → (u.gid == gid) ≡ false)
        × (undo ≡ Action.add_group name gid ∷ map (Action.add_member name) g.members)
  unfolding permitted expect_group
  delete_group-goes name gid undo h =
      let (_, p) = goes (accounts_of w) (Action.delete_group name gid) h in
      let (g, first, q) = then_go-goes _ _ p in
      let (_, second, r) =
        then_go-goes (nobodys_primary name (key_of (λ user. user.gid == gid) w.users))
          (λ _. Accounted.go (Action.add_group name gid ∷ map (Action.add_member name) g.members))
          q in
      let (found, has) = group_expected-ok name gid _ g first in
      let nobody = nobodys_primary-ok name (key_of (λ user. user.gid == gid) w.users) second in
      (
        g,
        found,
        has,
        λ n u user. key_of-none (λ user. user.gid == gid) n u w.users nobody user,
        go_inj r,
      )

  filter-nil :
      {A : Type 0} (p : A → Bool) (xs : List A) → filter (λ x. not (p x)) xs ≡ [] → all p xs ≡ true
  filter-nil p [] h = refl
  filter-nil p (x ∷ xs) h = ground (arith, h, filter-nil p xs)

  append-nil-nil : (xs ys : List Text) → xs ++ ys ≡ [] → (xs ≡ []) × (ys ≡ [])
  append-nil-nil [] ys h = (refl, h)
  append-nil-nil (x ∷ xs) ys h = cc

  group_at :
      (k : Text) (gid : ℕ)
      → key_of (λ group. group.gid == gid) w.groups ≡ some k
      → (m : Text) × (g : GroupFacts) × (lookup m w.groups ≡ some g) × (g.gid ≡ gid)
  group_at k gid e =
      let (g, found, has) =
        key_of-some (λ (group : GroupFacts). group.gid == gid) k w.groups valid.groups_sorted e in
      (k, g, found, (nat_eq.same_iff g.gid gid).0 has)

  primary_group :
      (gid : ℕ) (shown : Text)
      → filter (λ _. not (is_some (key_of (λ group. group.gid == gid) w.groups))) (shown ∷ []) ≡ []
      → (m : Text) × (g : GroupFacts) × (lookup m w.groups ≡ some g) × (g.gid ≡ gid)
  primary_group gid shown h = elim (Option-cases (key_of (λ group. group.gid == gid) w.groups)) [
    | inl none' ↦ absurd (ground (arith, h, none'))
    | inr (k, e) ↦ group_at k gid e
  ]

  pub add_user-goes :
      (spec : UserSpec) (undo : List Action)
      → account_precondition (accounts_of w) (Action.add_user spec) ≡ Accounted.go undo
      → (lookup spec.name w.users ≡ none)
        × ((n : Text) (u : UserFacts)
            → lookup n w.users ≡ some u
            → u.uid ≡ spec.uid
            → n ≡ spec.name)
        × ((m : Text) × (g : GroupFacts) × (lookup m w.groups ≡ some g) × (g.gid ≡ spec.gid))
        × (all (λ n. is_some (lookup n w.groups)) spec.groups ≡ true)
        × (undo ≡ Action.delete_user spec.name (spec.uid, spec.gid) spec.comment ∷ [])
  unfolding permitted missing_groups
  add_user-goes spec undo h =
      let (_, p) = goes (accounts_of w) (Action.add_user spec) h in
      let (_, first, q) = then_go-goes _ _ p in
      let (_, second, r) = then_go-goes _ _ q in
      let (_, third, t) = then_go-goes _ _ r in
      let (primary, others) = append-nil-nil _ _ (none_missing-ok spec.name _ third) in
      (
        no_user-ok spec.name _ first,
        uid_free-ok spec.name spec.uid second,
        primary_group spec.gid (decimal spec.gid) primary,
        filter-nil (λ n. is_some (lookup n w.groups)) spec.groups others,
        go_inj t,
      )

  pub set_user_ids-goes :
      (name : Text) (owner expect : Owner) (undo : List Action)
      → account_precondition (accounts_of w) (Action.set_user_ids name owner expect)
        ≡ Accounted.go undo
      → (u : UserFacts) × (lookup name w.users ≡ some u)
        × (same_ids u.uid u.gid expect ≡ true)
        × (same_ids u.uid u.gid owner ≡ false)
        × ((n : Text) (v : UserFacts) → lookup n w.users ≡ some v → v.uid ≡ owner.0 → n ≡ name)
        × ((m : Text) × (g : GroupFacts) × (lookup m w.groups ≡ some g) × (g.gid ≡ owner.1))
        × (undo ≡ Action.set_user_ids name expect owner ∷ [])
  unfolding permitted done_already expect_user
  set_user_ids-goes name owner expect undo h =
      let (apart, p) = goes (accounts_of w) (Action.set_user_ids name owner expect) h in
      let (u, first, q) = then_go-goes _ _ p in
      let (_, second, r) = then_go-goes _ _ q in
      let (_, third, t) = then_go-goes _ _ r in
      let (found, has) = user_expected-ok name expect _ u first in
      let (k, e) = exists-ok _ _ _ _ third in
      (
        u,
        found,
        has,
        ap (has_ids owner) (sym found) ∙ apart,
        uid_free-ok name owner.0 second,
        group_at k owner.1 e,
        go_inj t,
      )

  pub delete_user-goes :
      (name : Text) (expect : Owner) (comment : Text) (undo : List Action)
      → account_precondition (accounts_of w) (Action.delete_user name expect comment)
        ≡ Accounted.go undo
      → (u : UserFacts) × (lookup name w.users ≡ some u)
        × (undo ≡ Action.add_user (spec_of (accounts_of w) name u) ∷ [])
  unfolding permitted expect_user
  delete_user-goes name expect comment undo h =
      let (_, p) = goes (accounts_of w) (Action.delete_user name expect comment) h in
      let (u, first, q) = then_go-goes _ _ p in
      let (_, second, r) =
        then_go-goes (same_comment name comment u)
          (λ _. Accounted.go (Action.add_user (spec_of (accounts_of w) name u) ∷ [])) q in
      (u, (user_expected-ok name expect _ u first).0, go_inj r)

  pub add_member-goes :
      (name who : Text) (undo : List Action)
      → account_precondition (accounts_of w) (Action.add_member name who) ≡ Accounted.go undo
      → (g : GroupFacts) × (lookup name w.groups ≡ some g)
        × (contains g.members who ≡ false)
        × ((u : UserFacts) × (lookup who w.users ≡ some u))
        × (undo ≡ Action.remove_member name who ∷ [])
  unfolding permitted done_already
  add_member-goes name who undo h =
      let (apart, p) = goes (accounts_of w) (Action.add_member name who) h in
      let (_, first, q) = then_go-goes _ _ p in
      let (_, second, r) = then_go-goes _ _ q in
      let (g, found) = exists-ok _ _ _ _ first in
      (
        g,
        found,
        ap (λ o. contains (members_of o) who) (sym found) ∙ apart,
        exists-ok _ _ _ _ second,
        go_inj r,
      )

  pub remove_member-goes :
      (name who : Text) (undo : List Action)
      → account_precondition (accounts_of w) (Action.remove_member name who) ≡ Accounted.go undo
      → (g : GroupFacts) × (lookup name w.groups ≡ some g)
        × (contains g.members who ≡ true)
        × (undo ≡ Action.add_member name who ∷ [])
  unfolding permitted done_already
  remove_member-goes name who undo h =
      let (apart, p) = goes (accounts_of w) (Action.remove_member name who) h in
      let (_, first, q) = then_go-goes _ _ p in
      let (g, found) = exists-ok _ _ _ _ first in (g, found, ground (arith, apart, found), go_inj q)
