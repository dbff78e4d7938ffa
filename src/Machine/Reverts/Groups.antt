-- ===== src/Machine/Reverts/Groups.antt =====
-- A deleted group is made again, with its members.
use mix.Base.{
  ℕ, ◌+◌, ◌<◌, ◌≤◌, List, [], ◌∷◌, map, some, false, nat_eq, text_eq, ==_refl, contains,
  contains-count, count, Text, ◌≡◌, refl, arith, sym, ◌∙◌, ap,
}
use mix.Effect.Action.{Action}
use mix.Effect.Observe.{GroupFacts, UserFacts}
use mix.Declared.Order.{Ascending}
use mix.Machine.Map.{Map, lookup, insert, remove, change, Sorted}
use mix.Machine.Map.Laws.{lookup-remove, insert-Sorted, remove-Sorted, change-Sorted}
use mix.Machine.Map.Undo.{insert-remove}
use mix.Machine.World.{World, perform, with_member}
use mix.Machine.Members.{count-with_member, with_member-Ascending, group-ext, gid-with_member}
use mix.Machine.Valid.{IsValid, applied}
use mix.Machine.Succeeds.{applied-cons, add_group-Succeeds, add_member-Succeeds}
use mix.Machine.Permits.{delete_group-goes}
use mix.Machine.Reverts.{Reverts}
use mix.Machine.Changes.{lookup-change_self, lookup-insert_self}

module _ {V : Type 0} (k : Text) where
  change_id : (m : Map V) → change k (λ v. v) m ≡ m
  unfolding change
  change_id [] = refl
  change_id ((j, w) ∷ m) = ground (arith, change_id m)

  change_twice : (f g : V → V) (m : Map V) → change k g (change k f m) ≡ change k (λ v. g (f v)) m
  unfolding change
  change_twice f g [] = refl
  change_twice f g ((j, w) ∷ m) = ground (arith, change_twice f g m)

  change-insert : (f : V → V) (v : V) (m : Map V) → change k f (insert k v m) ≡ insert k (f v) m
  unfolding change insert
  change-insert f v [] = ground (arith, ==_refl k)
  change-insert f v ((j, w) ∷ m) = ground (arith, ==_refl k, change-insert f v m)

with_all : List Text → GroupFacts → GroupFacts
with_all [] g = g
with_all (who ∷ rest) g = with_all rest (with_member who g)

count-with_all :
    (p : Text) (ms : List Text) (g : GroupFacts)
    → count p (with_all ms g).members ≡ count p g.members + count p ms
unfolding with_all
count-with_all p [] g = omega arith
count-with_all p (who ∷ ms) g =
    ground (arith, count-with_all p ms (with_member who g), count-with_member p who g)

with_all-Ascending :
    (ms : List Text) (g : GroupFacts) → Ascending g.members → Ascending (with_all ms g).members
unfolding with_all
with_all-Ascending [] g h = h
with_all-Ascending (who ∷ ms) g h =
    with_all-Ascending ms (with_member who g) (with_member-Ascending who g)

gid-with_all : (ms : List Text) (g : GroupFacts) → (with_all ms g).gid ≡ g.gid
unfolding with_all
gid-with_all [] g = refl
gid-with_all (who ∷ ms) g = gid-with_all ms (with_member who g) ∙ gid-with_member who g

-- Users who are not members join one after the other.
applied-add_members :
    (name : Text) (ms : List Text) (w : World) (g : GroupFacts)
    → Sorted w.groups
    → Sorted w.users
    → lookup name w.groups ≡ some g
    → ((p : Text) → count p g.members + count p ms ≤ 1)
    → ((p : Text) → 0 < count p ms → (u : UserFacts) × (lookup p w.users ≡ some u))
    → applied (map (Action.add_member name) ms) w
      ≡ some (record w { groups = change name (with_all ms) w.groups })
unfolding with_all perform
applied-add_members name [] w g gs us found few users =
    ap (λ x. some (record w { groups = x })) (sym (change_id name w.groups))
applied-add_members name (who ∷ ms) w g gs us found few users =
    let (u, user) = users who (ground (arith, ==_refl who)) in
    let apart : contains g.members who ≡ false =
      contains-count g.members who ∙ ground (arith, few who, ==_refl who) in
    let w' = perform (Action.add_member name who) w in
    let step =
      applied-cons (Action.add_member name who) (map (Action.add_member name) ms) w
        (add_member-Succeeds w gs us name who g u found user apart) in
    let rest =
      applied-add_members name ms w' (with_member who g)
        (change-Sorted name (with_member who) w.groups gs) us
        (lookup-change_self name (with_member who) w.groups g found)
        (λ p. ground (arith, count-with_member p who g, few p))
        (λ p some'. users p (ground (arith, some'))) in
    step
    ∙ rest
    ∙ ap (λ x. some (record w { groups = x }))
        (change_twice name (with_member who) (with_all ms) w.groups)

else_found :
    (name n : Text) (w : World)
    → IsValid w
    → (x : GroupFacts) → lookup n (remove name w.groups) ≡ some x
    → lookup n w.groups ≡ some x
else_found name n w valid x found =
    ground (arith, found, lookup-remove n name w.groups valid.groups_sorted)

pub delete_group-Reverts :
    (w : World) → IsValid w → (name : Text) (gid : ℕ) → Reverts (Action.delete_group name gid) w
unfolding perform
delete_group-Reverts w valid name gid undo h =
    let (g, found, has, _, e) = delete_group-goes w valid name gid undo h in
    let bare : GroupFacts = record { gid = gid; members = [] } in
    let w' = perform (Action.delete_group name gid) w in
    let w'' = perform (Action.add_group name gid) w' in
    let gs' = remove-Sorted name w.groups valid.groups_sorted in
    let here = λ (n : Text). lookup-remove n name w.groups valid.groups_sorted in
    let step =
      applied-cons (Action.add_group name gid) (map (Action.add_member name) g.members) w' (
        add_group-Succeeds w' gs' valid.users_sorted name gid
          (here name ∙ ground (arith, ==_refl name))
          (λ n x found' has'.
            valid.gids_differ n name x g (else_found name n w valid x found') found
              (has' ∙ sym has))) in
    let joins =
      applied-add_members name g.members w'' bare
        (insert-Sorted name bare (remove name w.groups) gs') valid.users_sorted
        (lookup-insert_self name bare (remove name w.groups))
        (λ p. omega (arith, valid.members_once name p g found))
        (λ p listed. valid.members_exist name p g found listed) in
    let same : with_all g.members bare ≡ g =
      group-ext (with_all g.members bare) g (gid-with_all g.members bare ∙ sym has)
        (with_all-Ascending g.members bare tt) (valid.members_ascend name g found)
        (λ p. omega (arith, count-with_all p g.members bare)) in
    let groups =
      change-insert name (with_all g.members) bare (remove name w.groups)
      ∙ insert-remove w.groups valid.groups_sorted name (with_all g.members bare)
          (found ∙ ap some (sym same)) in
    rw e (step ∙ joins ∙ ap (λ x. some (record w { groups = x })) groups)
