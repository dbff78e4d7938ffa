-- ===== src/Machine/Changes.antt =====
-- What is found behind a change, and members who leave and join again.
use mix.Base.{
  ◌<◌, List, some, true, false, ◌==◌, nat_eq, text_eq, ==_refl, contains, contains-count, count,
  Text, ◌≡◌, refl, arith, ◌∙◌,
}
use mix.Effect.Observe.{GroupFacts}
use mix.Declared.Order.{Ascending}
use mix.Machine.Map.{lookup, change, insert}
use mix.Machine.Map.Laws.{lookup-insert, lookup-change}
use mix.Machine.World.{with_member, without_member}
use mix.Machine.Members.{
  count-with_member, count-without_member, with_member-Ascending, without_member-Ascending,
  group-ext, gid-with_member, gid-without_member,
}

pub lookup-change_self :
    {V : Type 0} (k : Text) (f : V → V) (m : List (Text × V)) (v : V)
    → lookup k m ≡ some v
    → lookup k (change k f m) ≡ some (f v)
lookup-change_self k f m v found = lookup-change k k f m ∙ rw (==_refl k, found) refl

pub lookup-insert_self :
    {V : Type 0} (k : Text) (v : V) (m : List (Text × V)) → lookup k (insert k v m) ≡ some v
lookup-insert_self k v m = lookup-insert k k v m ∙ rw (==_refl k) refl

-- What is found behind a change was there, or is at the changed key.
pub lookup-change_else :
    {V : Type 0} (j k : Text) (f : V → V) (m : List (Text × V)) (v : V)
    → lookup j (change k f m) ≡ some v
    → (k == j) ≡ false
    → lookup j m ≡ some v
lookup-change_else j k f m v found apart = rw (lookup-change j k f m, apart) at found

pub contains-false : (xs : List Text) (p : Text) → contains xs p ≡ false → count p xs ≡ 0
contains-false xs p h = ground (arith, contains-count xs p, h)

pub contains-true : (xs : List Text) (p : Text) → contains xs p ≡ true → 0 < count p xs
contains-true xs p h = ground (arith, contains-count xs p, h)

-- Who was no member joins and leaves.
pub left_again :
    (g : GroupFacts) (who : Text)
    → Ascending g.members
    → count who g.members ≡ 0
    → without_member who (with_member who g) ≡ g
left_again g who up zero' =
    group-ext (without_member who (with_member who g)) g
      (gid-without_member who (with_member who g) ∙ gid-with_member who g)
      (without_member-Ascending who (with_member who g) (with_member-Ascending who g)) up
      (λ p.
        count-without_member p who (with_member who g)
        ∙ ground (arith, count-with_member p who g, zero', text_eq.same_iff who p))

-- Who was a member once leaves and joins.
pub joined_again :
    (g : GroupFacts) (who : Text)
    → Ascending g.members
    → count who g.members ≡ 1
    → with_member who (without_member who g) ≡ g
joined_again g who up one =
    group-ext (with_member who (without_member who g)) g
      (gid-with_member who (without_member who g) ∙ gid-without_member who g)
      (with_member-Ascending who (without_member who g)) up
      (λ p.
        count-with_member p who (without_member who g)
        ∙ ground (arith, count-without_member p who g, one, text_eq.same_iff who p))
