-- ===== src/Machine/Joining.antt =====
-- What a group is behind a user joining groups.
use mathlib.Core.Path.{subst}
use mix.Base.{
  ℕ, suc, ◌+◌, List, [], ◌∷◌, none, some, true, if◌then◌else◌, ◌==◌, nat_eq, text_eq, count, Text,
  ◌≡◌, refl, arith, ◌∙◌, ap, inl, inr, Bool-cases,
}
use mix.Effect.Observe.{GroupFacts}
use mix.Declared.Order.{Ascending}
use mix.Machine.Map.{Map, lookup, change, Sorted}
use mix.Machine.Map.Laws.{lookup-change, change-Sorted}
use mix.Machine.World.{with_member, without_member, join_groups}
use mix.Machine.Members.{
  count-with_member, count-without_member, with_member-Ascending, without_member-Ascending,
  group-ext, gid-with_member, gid-without_member,
}

-- What a group is after a user joined groups, some of them twice perhaps.
pub record Joined (who : Text) (times : ℕ) (g g' : GroupFacts) : Type 0 where
  pub same_gid : g'.gid ≡ g.gid
  pub counted :
      (p : Text) → count p g'.members ≡ count p g.members + (if who == p then times else 0)
  pub ascends : Ascending g.members → Ascending g'.members

pub Joined-none : (who : Text) (g : GroupFacts) → Joined who 0 g g
Joined-none who g = record { same_gid = refl; counted = λ p. ground arith; ascends = λ h. h }

pub Joined-more :
    (who : Text) (times : ℕ) (g g' : GroupFacts)
    → Joined who times (with_member who g) g'
    → Joined who (suc times) g g'
Joined-more who times g g' j = record {
  same_gid = j.same_gid ∙ gid-with_member who g;
  counted = λ p. j.counted p ∙ ground (arith, count-with_member p who g);
  ascends = λ _. j.ascends (with_member-Ascending who g);
}

pub join_groups-Sorted :
    (who : Text) (names : List Text) (m : Map GroupFacts)
    → Sorted m
    → Sorted (join_groups who names m)
unfolding join_groups
join_groups-Sorted who [] m s = s
join_groups-Sorted who (n ∷ names) m s =
    join_groups-Sorted who names (change n (with_member who) m)
      (change-Sorted n (with_member who) m s)

pub lookup-join_groups-none :
    (who j : Text) (names : List Text) (m : Map GroupFacts)
    → lookup j m ≡ none
    → lookup j (join_groups who names m) ≡ none
unfolding join_groups
lookup-join_groups-none who j [] m h = h
lookup-join_groups-none who j (n ∷ names) m h =
    lookup-join_groups-none who j names (change n (with_member who) m)
      (lookup-change j n (with_member who) m ∙ ground (arith, h))

pub lookup-join_groups :
    (who j : Text) (names : List Text) (m : Map GroupFacts) (g : GroupFacts)
    → lookup j m ≡ some g
    → (g' : GroupFacts) × (lookup j (join_groups who names m) ≡ some g')
      × Joined who (count j names) g g'
unfolding join_groups
lookup-join_groups who j [] m g found = (g, found, Joined-none who g)
lookup-join_groups who j (n ∷ names) m g found = elim (Bool-cases (n == j)) [
  | inr other ↦
      let (g', found', joined) =
        lookup-join_groups who j names (change n (with_member who) m) g
          (lookup-change j n (with_member who) m ∙ rw other found) in
      (g', found', subst (λ t. Joined who t g g') (ground (arith, other)) joined)
  | inl is ↦
      let (g', found', joined) =
        lookup-join_groups who j names (change n (with_member who) m) (with_member who g)
          (lookup-change j n (with_member who) m ∙ rw (is, found) refl) in
      (
        g',
        found',
        subst (λ t. Joined who t g g') (ground (arith, is))
            (Joined-more who (count j names) g g' joined),
      )
]

-- Who was no member joined and leaves.
pub without-Joined :
    (who : Text) (times : ℕ) (g g' : GroupFacts)
    → Joined who times g g'
    → Ascending g.members
    → count who g.members ≡ 0
    → without_member who g' ≡ g
without-Joined who times g g' j up zero' =
    group-ext (without_member who g') g (gid-without_member who g' ∙ j.same_gid)
      (without_member-Ascending who g' (j.ascends up)) up
      (λ p.
        count-without_member p who g' ∙ ground (arith, j.counted p, zero', text_eq.same_iff who p))

-- Who was a member once left and joined.
pub Joined-without :
    (who : Text) (g g' : GroupFacts)
    → Joined who (count who g.members) (without_member who g) g'
    → Ascending g.members
    → g' ≡ g
Joined-without who g g' j up =
    group-ext g' g (j.same_gid ∙ gid-without_member who g)
      (j.ascends (without_member-Ascending who g up)) up
      (λ p. j.counted p ∙ ground (arith, count-without_member p who g, count_same who p g.members))
  where
    count_same : (who p : Text) (ms : List Text) → (who == p) ≡ true → count who ms ≡ count p ms
    count_same who p ms is = ap (λ x. count x ms) ((text_eq.same_iff who p).0 is)
