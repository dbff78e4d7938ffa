-- ===== src/Machine/Checks.antt =====
-- What a check of an action on groups and users found if it passed.
use mix.Base.{
  ℕ, List, [], ◌∷◌, Option, none, some, Bool, true, false, ◌==◌, nat_eq, text_eq, Text, ◌≡◌, refl,
  arith, ◌∙◌, inl, inr, Bool-cases, Option-cases,
}
use mix.Effect.Types.{Owner}
use mix.Effect.Action.{Action}
use mix.Effect.Observe.{GroupFacts, UserFacts}
use mix.Effect.Accounts.{
  Accounts, Accounted, Checked, account_precondition, done_already, permitted, free_of, same_ids,
  then_go, no_group, no_user, group_expected, user_expected, nobodys_primary, none_missing,
  same_comment, exists,
}
use mix.Machine.Map.{Map, lookup, Sorted, key_of}
use mix.Machine.Map.Same.{key_of-some, key_of-none}

pub then_go-goes :
    {A : Type 0} (c : Checked A) (next : A → Accounted) {undo : List Action}
    → then_go c next ≡ Accounted.go undo
    → (a : A) × (c ≡ Checked.ok a) × (next a ≡ Accounted.go undo)
then_go-goes (Checked.ok a) next h = (a, refl, h)
then_go-goes (Checked.err f) next h = cc

pub go_inj : {a b : List Action} → Accounted.go a ≡ Accounted.go b → b ≡ a
go_inj h = cc

module _ (accounts : Accounts) where
  pub goes :
      (action : Action) {undo : List Action}
      → account_precondition accounts action ≡ Accounted.go undo
      → (done_already accounts action ≡ false) × (permitted accounts action ≡ Accounted.go undo)
  unfolding account_precondition
  goes action h = ground (arith, h)

pub no_group-ok :
    (name : Text) (o : Option GroupFacts) {a : Unit {0}} → no_group name o ≡ Checked.ok a → o ≡ none
no_group-ok name none h = refl
no_group-ok name (some g) h = cc

pub no_user-ok :
    (name : Text) (o : Option UserFacts) {a : Unit {0}} → no_user name o ≡ Checked.ok a → o ≡ none
no_user-ok name none h = refl
no_user-ok name (some g) h = cc

pub exists-ok :
    {A : Type 0} (s e f : Text) (o : Option A) {a : Unit {0}}
    → exists s e f o ≡ Checked.ok a
    → (x : A) × (o ≡ some x)
exists-ok s e f none h = cc
exists-ok s e f (some x) h = (x, refl)

pub group_expected-ok :
    (name : Text) (gid : ℕ) (o : Option GroupFacts) (g : GroupFacts)
    → group_expected name gid o ≡ Checked.ok g
    → (o ≡ some g) × (g.gid ≡ gid)
group_expected-ok name gid none g h = cc
group_expected-ok name gid (some x) g h = ground (arith, h)

pub user_expected-ok :
    (name : Text) (ids : Owner) (o : Option UserFacts) (u : UserFacts)
    → user_expected name ids o ≡ Checked.ok u
    → (o ≡ some u) × (same_ids u.uid u.gid ids ≡ true)
user_expected-ok name ids none u h = cc
user_expected-ok name ids (some x) u h = ground (arith, h)

pub nobodys_primary-ok :
    (name : Text) (o : Option Text) {a : Unit {0}}
    → nobodys_primary name o ≡ Checked.ok a
    → o ≡ none
nobodys_primary-ok name none h = refl
nobodys_primary-ok name (some x) h = cc

pub none_missing-ok :
    (name : Text) (l : List Text) {a : Unit {0}} → none_missing name l ≡ Checked.ok a → l ≡ []
none_missing-ok name [] h = refl
none_missing-ok name (x ∷ l) h = cc

pub same_comment-ok :
    (name comment : Text) (u : UserFacts) {a : Unit {0}}
    → same_comment name comment u ≡ Checked.ok a
    → u.comment ≡ comment
same_comment-ok name comment u h = ground (arith, h, text_eq.same_iff u.comment comment)

-- Whoever has an id that is free for a name is of that name, if no two share it.
pub free_of-ok :
    {V : Type 0} (p : V → Bool) (name id : Text) (m : Map V)
    → Sorted m
    → ((n k : Text) (v w : V)
        → lookup n m ≡ some v
        → lookup k m ≡ some w
        → p v ≡ true
        → p w ≡ true
        → n ≡ k)
    → {a : Unit {0}} → free_of name id (key_of p m) ≡ Checked.ok a
    → (n : Text) (v : V) → lookup n m ≡ some v
    → p v ≡ true
    → n ≡ name
free_of-ok p name id m s uniq h n v found fits = elim (Option-cases (key_of p m)) [
  | inl nobody ↦ absurd (cc (key_of-none p n v m nobody found, fits))
  | inr (k, e) ↦
      let (w, found', fits') = key_of-some p k m s e in
      elim (Bool-cases (k == name)) [
        | inl is ↦ uniq n k v w found found' fits fits' ∙ (text_eq.same_iff k name).0 is
        | inr other ↦ absurd (ground (arith, h, e, other))
      ]
]
