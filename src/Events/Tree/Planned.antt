-- ===== src/Events/Tree/Planned.antt =====
-- The keys that were planned and never claimed: none of them comes twice, and reporting them all
-- leaves no planned key out.
use mix.Base.{
  List, [], ◌∷◌, none, Bool, true, false, not, ◌&&◌, ◌||◌, ◌≡◌, refl, ap, ◌∙◌, arith, ◌==◌, text_eq,
  contains, filter, find, Text, ==_refl, Bool-cases, inl, inr,
}
use mix.Events.Tree.Coupling.{Distinct}
use mix.Events.Tree.Noting.{Free, with_keys}

contains-filter :
    (p : Text → Bool) (keys : List Text) (key : Text)
    → contains (filter p keys) key ≡ (p key && contains keys key)
contains-filter p [] key = ground arith
contains-filter p (k ∷ keys) key = elim (Bool-cases (k == key)) [
  | inl is ↦
      let e : p k ≡ p key = ap p ((text_eq.same_iff k key).0 is) in
      ground (arith, contains-filter p keys key, is, e)
  | inr other ↦ ground (arith, contains-filter p keys key, other)
]

Distinct-filter : (p : Text → Bool) (keys : List Text) → Distinct keys → Distinct (filter p keys)
Distinct-filter p [] d = tt
Distinct-filter p (k ∷ keys) d = elim (Bool-cases (p k)) [
  | inl yes' ↦ rw yes' (contains-filter p keys k ∙ rw (d.0, yes') refl, Distinct-filter p keys d.1)
  | inr no' ↦ rw no' (Distinct-filter p keys d.1)
]

Free-apart :
    (ks keys : List Text)
    → Distinct ks
    → ((k : Text) → contains ks k ≡ true → contains keys k ≡ false)
    → Free ks keys
Free-apart [] keys d apart = tt
Free-apart (k ∷ ks) keys d apart = (
  apart k (rw (==_refl k) refl),
  Free-apart ks (k ∷ keys) d.1 (λ x h. elim (Bool-cases (k == x)) [
    | inl is ↦ absurd (cc (d.0, h, ap (contains ks) ((text_eq.same_iff k x).0 is)))
    | inr other ↦ rw other (apart x (rw (other, h) refl))
  ]),
)

abbrev pub left_over : List Text → List Text → List Text
left_over used = filter (λ key. not (contains used key))

pub Free-left_over :
    (planned used : List Text) → Distinct planned → Free (left_over used planned) used
Free-left_over planned used d =
    Free-apart (left_over used planned) used (Distinct-filter _ planned d)
      (λ k h. ground (arith, h, contains-filter (λ key. not (contains used key)) planned k))

contains-with_keys :
    (ks keys : List Text) (key : Text)
    → contains (with_keys ks keys) key ≡ (contains ks key || contains keys key)
contains-with_keys [] keys key = refl
contains-with_keys (k ∷ ks) keys key = contains-with_keys ks (k ∷ keys) key ∙ ground arith

find-none :
    (p : Text → Bool) (keys : List Text)
    → ((k : Text) → contains keys k ≡ true → p k ≡ false)
    → find p keys ≡ none
find-none p [] h = refl
find-none p (k ∷ keys) h =
    rw (h k (rw (==_refl k) refl)) (find-none p keys (λ x e. h x (ground arith)))

pub find-left_over :
    (planned used : List Text)
    → find (λ key. not (contains (with_keys (left_over used planned) used) key)) planned ≡ none
find-left_over planned used = find-none _ planned (λ k h. ground (
  arith,
  h,
  contains-with_keys (left_over used planned) used k,
  contains-filter (λ key. not (contains used key)) planned k,
))
