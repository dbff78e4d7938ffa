-- ===== src/Machine/Succeeds.antt =====
-- When an action on groups and users is let through, by what the machine holds.
use mix.Base.{
  ℕ, List, [], ◌∷◌, ◌++◌, map, filter, Option, none, some, is_some, Bool, true, false, not, ◌==◌,
  nat_eq, text_eq, ==_refl, contains, Text, text, ◌≡◌, refl, arith, inl, inr, Option-cases, all,
}
use mix.Effect.Types.{Owner, UserSpec}
use mix.Effect.Action.{Action}
use mix.Effect.Observe.{GroupFacts, UserFacts}
use mix.Effect.Accounts.{
  Accounted, Checked, account_precondition, done_already, permitted, expect_group, expect_user,
  gid_free, uid_free, missing_groups, free_of, spec_of, same_ids,
}
use mix.Declared.Paths.{decimal}
use mix.Machine.Map.{Map, lookup, Sorted, key_of}
use mix.Machine.Map.Same.{key_of-some, key_of-none}
use mix.Machine.World.{World, accounts_of, perform, apply}
use mix.Machine.Valid.{applied}

-- The action is carried out.
abbrev pub Succeeds : Action → World → Type 0
Succeeds action w =
    (undo : List Action) × (account_precondition (accounts_of w) action ≡ Accounted.go undo)

pub applied-cons :
    (action : Action) (rest : List Action) (w : World)
    → Succeeds action w
    → applied (action ∷ rest) w ≡ applied rest (perform action w)
unfolding apply
applied-cons action rest w (undo, goes) = rw goes refl

-- An id is free for a name if nobody else has it.
key-free :
    {V : Type 0} (p : V → Bool) (name subject : Text) (m : Map V)
    → Sorted m
    → ((k : Text) (v : V) → lookup k m ≡ some v → p v ≡ true → k ≡ name)
    → (o : Option Text) → key_of p m ≡ o
    → free_of name subject o ≡ Checked.ok tt
key-free p name subject m s h none e = refl
key-free p name subject m s h (some k) e =
    let (v, found, fits) = key_of-some p k m s e in
    rw ((text_eq.same_iff k name).1 (h k v found fits)) refl

-- There is a key for a value that passes.
pub key_of-found :
    {V : Type 0} (p : V → Bool) (m : Map V) (k : Text) (v : V)
    → lookup k m ≡ some v
    → p v ≡ true
    → (j : Text) × (key_of p m ≡ some j)
key_of-found p m k v found fits = elim (Option-cases (key_of p m)) [
  | inr here ↦ here
  | inl none' ↦ absurd (cc (key_of-none p k v m none' found, fits))
]

pub key_of-nobody :
    {V : Type 0} (p : V → Bool) (m : Map V)
    → Sorted m
    → ((k : Text) (v : V) → lookup k m ≡ some v → p v ≡ false)
    → key_of p m ≡ none
key_of-nobody p m s h = elim (Option-cases (key_of p m)) [
  | inl none' ↦ none'
  | inr (k, e) ↦ let (v, found, fits) = key_of-some p k m s e in absurd (cc (h k v found, fits))
]

module _ (w : World) (gs : Sorted w.groups) (us : Sorted w.users) where
  pub add_group-Succeeds :
      (name : Text) (gid : ℕ)
      → lookup name w.groups ≡ none
      → ((n : Text) (g : GroupFacts) → lookup n w.groups ≡ some g → g.gid ≡ gid → n ≡ name)
      → Succeeds (Action.add_group name gid) w
  unfolding account_precondition done_already permitted gid_free
  add_group-Succeeds name gid missing free = (
    Action.delete_group name gid ∷ [],
    let free' =
          key-free (λ group. group.gid == gid) name (text "gid " ++ decimal gid) w.groups gs
            (λ n g found has. free n g found ((nat_eq.same_iff g.gid gid).0 has))
            (key_of (λ group. group.gid == gid) w.groups) refl in
        rw (missing, free') refl,
  )

  pub set_group_gid-Succeeds :
      (name : Text) (gid expect : ℕ) (g : GroupFacts)
      → lookup name w.groups ≡ some g
      → g.gid ≡ expect
      → (expect == gid) ≡ false
      → ((n : Text) (h : GroupFacts) → lookup n w.groups ≡ some h → h.gid ≡ gid → n ≡ name)
      → Succeeds (Action.set_group_gid name gid expect) w
  unfolding account_precondition done_already permitted gid_free expect_group
  set_group_gid-Succeeds name gid expect g found has apart free = (
    Action.set_group_gid name expect gid ∷ [],
    let free' =
          key-free (λ group. group.gid == gid) name (text "gid " ++ decimal gid) w.groups gs
            (λ n g found has. free n g found ((nat_eq.same_iff g.gid gid).0 has))
            (key_of (λ group. group.gid == gid) w.groups) refl in
        rw (found, has, apart, free', ==_refl expect) refl,
  )

  pub delete_group-Succeeds :
      (name : Text) (gid : ℕ) (g : GroupFacts)
      → lookup name w.groups ≡ some g
      → g.gid ≡ gid
      → ((n : Text) (u : UserFacts) → lookup n w.users ≡ some u → (u.gid == gid) ≡ false)
      → Succeeds (Action.delete_group name gid) w
  unfolding account_precondition done_already permitted expect_group
  delete_group-Succeeds name gid g found has nobodys = (
    Action.add_group name gid ∷ map (Action.add_member name) g.members,
    let nobody = key_of-nobody (λ user. user.gid == gid) w.users us nobodys in
        rw (found, has, ==_refl gid, nobody) refl,
  )

  filter-exist :
      (names : List Text)
      → all (λ n. is_some (lookup n w.groups)) names ≡ true
      → filter (λ n. not (is_some (lookup n w.groups))) names ≡ []
  filter-exist [] h = refl
  filter-exist (n ∷ names) h = ground (arith, filter-exist names)

  pub add_user-Succeeds :
      (spec : UserSpec) (m : Text) (g : GroupFacts)
      → lookup spec.name w.users ≡ none
      → ((n : Text) (u : UserFacts) → lookup n w.users ≡ some u → u.uid ≡ spec.uid → n ≡ spec.name)
      → lookup m w.groups ≡ some g
      → g.gid ≡ spec.gid
      → all (λ n. is_some (lookup n w.groups)) spec.groups ≡ true
      → Succeeds (Action.add_user spec) w
  unfolding account_precondition done_already permitted uid_free missing_groups
  add_user-Succeeds spec m g missing free found has exist = (
    Action.delete_user spec.name (spec.uid, spec.gid) spec.comment ∷ [],
    let free' =
          key-free (λ user. user.uid == spec.uid) spec.name (text "uid " ++ decimal spec.uid)
            w.users us (λ n u found has. free n u found ((nat_eq.same_iff u.uid spec.uid).0 has))
            (key_of (λ user. user.uid == spec.uid) w.users) refl in
        let (j, primary) =
          key_of-found (λ group. group.gid == spec.gid) w.groups m g found
            ((nat_eq.same_iff g.gid spec.gid).1 has) in
        rw (missing, free', primary, filter-exist spec.groups exist) refl,
  )

  pub set_user_ids-Succeeds :
      (name : Text) (owner expect : Owner) (u : UserFacts) (m : Text) (g : GroupFacts)
      → lookup name w.users ≡ some u
      → same_ids u.uid u.gid expect ≡ true
      → same_ids u.uid u.gid owner ≡ false
      → ((n : Text) (v : UserFacts) → lookup n w.users ≡ some v → v.uid ≡ owner.0 → n ≡ name)
      → lookup m w.groups ≡ some g
      → g.gid ≡ owner.1
      → Succeeds (Action.set_user_ids name owner expect) w
  unfolding account_precondition done_already permitted uid_free expect_user
  set_user_ids-Succeeds name owner expect u m g found has apart free found' has' = (
    Action.set_user_ids name expect owner ∷ [],
    let free' =
          key-free (λ user. user.uid == owner.0) name (text "uid " ++ decimal owner.0) w.users us
            (λ n v found has. free n v found ((nat_eq.same_iff v.uid owner.0).0 has))
            (key_of (λ user. user.uid == owner.0) w.users) refl in
        let (j, primary) =
          key_of-found (λ group. group.gid == owner.1) w.groups m g found'
            ((nat_eq.same_iff g.gid owner.1).1 has') in
        rw (found, apart, has, free', primary) refl,
  )

  pub delete_user-Succeeds :
      (name : Text) (expect : Owner) (comment : Text) (u : UserFacts)
      → lookup name w.users ≡ some u
      → same_ids u.uid u.gid expect ≡ true
      → u.comment ≡ comment
      → Succeeds (Action.delete_user name expect comment) w
  unfolding account_precondition done_already permitted expect_user
  delete_user-Succeeds name expect comment u found has said = (
    Action.add_user (spec_of (accounts_of w) name u) ∷ [],
    rw (found, has, (text_eq.same_iff u.comment comment).1 said) refl,
  )

  pub add_member-Succeeds :
      (name who : Text) (g : GroupFacts) (u : UserFacts)
      → lookup name w.groups ≡ some g
      → lookup who w.users ≡ some u
      → contains g.members who ≡ false
      → Succeeds (Action.add_member name who) w
  unfolding account_precondition done_already permitted
  add_member-Succeeds name who g u found user apart =
      (Action.remove_member name who ∷ [], rw (found, apart, user) refl)

  pub remove_member-Succeeds :
      (name who : Text) (g : GroupFacts)
      → lookup name w.groups ≡ some g
      → contains g.members who ≡ true
      → Succeeds (Action.remove_member name who) w
  unfolding account_precondition done_already permitted
  remove_member-Succeeds name who g found among =
      (Action.add_member name who ∷ [], rw (found, among) refl)
