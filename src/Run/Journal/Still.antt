-- ===== src/Run/Journal/Still.antt =====
-- Each revert that the journal records cancels one undo action that asks for the same.
use mix.Base.{
  ◌+◌, ◌-◌, List, [], ◌∷◌, ◌++◌, ◌≡◌, refl, ap, arith, true, inl, inr, none, some, Bool-cases,
  contains, count, count-append, contains-count, flat_map, Option, reverse, reverse-cons,
  append-nil, append_assoc,
}
use mix.Effect.Action.{Action, action_eq}
use mix.Run.Rollback.Flat.{unwound}
use mix.Run.Journal.{split_last, swap_remove_first, still, still_all}

abbrev joined : Option (List Action × Action) → List Action
joined none = []
joined (some (ys, y)) = ys ++ y ∷ []

split_last-joined : (xs : List Action) → joined (split_last xs) ≡ xs
split_last-joined [] = refl
split_last-joined (x ∷ xs) = ground (arith, split_last-joined xs)

abbrev moved : Option (List Action × Action) → List Action
moved none = []
moved (some (ys, y)) = y ∷ ys

count-moved :
    (b : Action) (o : Option (List Action × Action)) → count b (moved o) ≡ count b (joined o)
count-moved b none = refl
count-moved b (some (ys, y)) = ground (arith, count-append b ys (y ∷ []))

count-swap_remove :
    (a b : Action) (xs : List Action)
    → contains xs a ≡ true
    → count b xs ≡ count b (swap_remove_first a xs) + count b (a ∷ [])
count-swap_remove a b [] h = cc
count-swap_remove a b (x ∷ xs) h = ground (
  arith,
  count-swap_remove a b xs,
  count-moved b (split_last xs),
  split_last-joined xs,
  action_eq.same_iff x a,
)

-- As often as `undo` asks for it, less the recorded reverts; and what of those is left over.
still-count :
    (a : Action) (undo reverts : List Action)
    → (count a (still undo reverts).0 ≡ count a undo - count a reverts)
      × (count a (still undo reverts).1 ≡ count a reverts - count a undo)
unfolding still
still-count a [] reverts = omega arith
still-count a (x ∷ undo) reverts = elim (Bool-cases (contains reverts x)) [
  | inl hit ↦ rw hit (
      ground (
        arith,
        still-count a undo (swap_remove_first x reverts),
        count-swap_remove x a reverts hit,
      ))
  | inr miss ↦
      rw miss (
        ground
          (arith, still-count a undo reverts, contains-count reverts x, action_eq.same_iff x a))
]

pub still_all-count :
    (a : Action) (journal : List (List Action)) (reverts : List Action)
    → (count a (flat_map (λ undo. undo) (still_all journal reverts).0)
        ≡ count a (flat_map (λ undo. undo) journal) - count a reverts)
      × (count a (still_all journal reverts).1
          ≡ count a reverts - count a (flat_map (λ undo. undo) journal))
unfolding still_all
still_all-count a [] reverts = omega arith
still_all-count a (undo ∷ rest) reverts =
    let left = (still undo reverts).1 in
    omega (
      arith,
      still-count a undo reverts,
      still_all-count a rest left,
      count-append a undo (flat_map (λ undo. undo) rest),
      count-append a (still undo reverts).0 (flat_map (λ undo. undo) (still_all rest left).0),
    )

flat_map-append :
    (xs ys : List (List Action))
    → flat_map (λ undo. undo) (xs ++ ys) ≡ flat_map (λ undo. undo) xs ++ flat_map (λ undo. undo) ys
flat_map-append [] ys = refl
flat_map-append (x ∷ xs) ys = simp (flat_map-append xs ys, append_assoc)

pub count-unwound :
    (a : Action) (journal : List (List Action))
    → count a (unwound journal) ≡ count a (flat_map (λ undo. undo) journal)
count-unwound a [] = refl
count-unwound a (undo ∷ rest) = omega (
  arith,
  ap (λ l. count a (flat_map (λ u. u) l)) (reverse-cons undo rest),
  ap (count a) (flat_map-append (reverse rest) (undo ∷ [])),
  count-append a (unwound rest) (undo ++ []),
  ap (count a) (append-nil undo),
  count-append a undo (flat_map (λ u. u) rest),
  count-unwound a rest,
)

-- Nothing was reverted yet, so everything is kept.
pub still-nil : (undo : List Action) → still undo [] ≡ (undo, [])
unfolding still
still-nil [] = refl
still-nil (a ∷ undo) = rw (still-nil undo)

pub still_all-nil : (journal : List (List Action)) → still_all journal [] ≡ (journal, [])
unfolding still_all
still_all-nil [] = refl
still_all-nil (undo ∷ rest) = rw (still-nil undo, still_all-nil rest)
