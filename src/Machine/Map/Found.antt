-- ===== src/Machine/Map/Found.antt =====
-- What is found in a map behind an operation, traced back.
use mathlib.Core.Option
use mix.Base.{
  Option, none, some, some_inj, false, ◌==◌, nat_eq, text_eq, Text, ◌≡◌, refl, arith, Bool-cases,
  inl, inr, ◌∙◌, sym, ◌⊎◌,
}
use mix.Machine.Map.{Map, lookup, insert, remove, change, change_all, Sorted}
use mix.Machine.Map.Laws.{lookup-insert, lookup-remove, lookup-change, lookup-change_all}

module _ {V : Type 0} where
  pub found-insert :
      (n k : Text) (v x : V) (m : Map V)
      → lookup n (insert k v m) ≡ some x
      → ((k ≡ n) × (v ≡ x)) ⊎ (((k == n) ≡ false) × (lookup n m ≡ some x))
  found-insert n k v x m h = elim (Bool-cases (k == n)) [
    | inl is ↦
        inl ((text_eq.same_iff k n).0 is, some_inj (sym (lookup-insert n k v m ∙ rw is refl) ∙ h))
    | inr other ↦ inr (other, sym (lookup-insert n k v m ∙ rw other refl) ∙ h)
  ]

  pub found-remove :
      (n k : Text) (x : V) (m : Map V)
      → Sorted m
      → lookup n (remove k m) ≡ some x
      → ((k == n) ≡ false) × (lookup n m ≡ some x)
  found-remove n k x m s h = elim (Bool-cases (k == n)) [
    | inl is ↦ absurd (ground (arith, lookup-remove n k m s, is, h))
    | inr other ↦ (other, sym (lookup-remove n k m s ∙ rw other refl) ∙ h)
  ]

  pub found-map :
      (f : V → V) (x : V) (o : Option V)
      → Option.map f o ≡ some x
      → (y : V) × (o ≡ some y) × (f y ≡ x)
  found-map f x none h = absurd (cc)
  found-map f x (some y) h = (y, refl, some_inj h)

  pub found-change :
      (n k : Text) (f : V → V) (x : V) (m : Map V)
      → lookup n (change k f m) ≡ some x
      → ((k ≡ n) × ((y : V) × (lookup n m ≡ some y) × (f y ≡ x)))
        ⊎ (((k == n) ≡ false) × (lookup n m ≡ some x))
  found-change n k f x m h = elim (Bool-cases (k == n)) [
    | inl is ↦ inl (
      (text_eq.same_iff k n).0 is,
      found-map f x (lookup n m) (sym (lookup-change n k f m ∙ rw is refl) ∙ h),
    )
    | inr other ↦ inr (other, sym (lookup-change n k f m ∙ rw other refl) ∙ h)
  ]

  pub found-change_all :
      (n : Text) (f : V → V) (x : V) (m : Map V)
      → lookup n (change_all f m) ≡ some x
      → (y : V) × (lookup n m ≡ some y) × (f y ≡ x)
  found-change_all n f x m h = found-map f x (lookup n m) (sym (lookup-change_all n f m) ∙ h)

  -- And forth: what was there is there still, as it is then.
  pub insert-keeps :
      (n k : Text) (v x : V) (m : Map V)
      → lookup n m ≡ some x
      → (k == n) ≡ false
      → lookup n (insert k v m) ≡ some x
  insert-keeps n k v x m h other = lookup-insert n k v m ∙ rw other h

  pub remove-keeps :
      (n k : Text) (x : V) (m : Map V)
      → Sorted m
      → lookup n m ≡ some x
      → (k == n) ≡ false
      → lookup n (remove k m) ≡ some x
  remove-keeps n k x m s h other = lookup-remove n k m s ∙ rw other h

  pub change_all-keeps :
      (n : Text) (f : V → V) (x : V) (m : Map V)
      → lookup n m ≡ some x
      → lookup n (change_all f m) ≡ some (f x)
  change_all-keeps n f x m h = lookup-change_all n f m ∙ rw h refl

  -- What a change keeps of every value it keeps of the one that is found.
  pub change-keeps :
      (P : V → Type 0) (n k : Text) (f : V → V) (x : V) (m : Map V)
      → lookup n m ≡ some x
      → P x
      → P (f x)
      → (y : V) × (lookup n (change k f m) ≡ some y) × P y
  change-keeps P n k f x m h p q = elim (Bool-cases (k == n)) [
    | inl is ↦ (f x, lookup-change n k f m ∙ rw (is, h) refl, q)
    | inr other ↦ (x, lookup-change n k f m ∙ rw other h, p)
  ]
