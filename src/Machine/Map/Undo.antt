-- ===== src/Machine/Map/Undo.antt =====
-- Operations on a map that take each other back.
use mathlib.Core.Option
use mix.Base.{
  Option, none, some, ◌==◌, nat_eq, text_eq, Text, ◌≡◌, refl, Bool-cases, inl, inr, ap, ◌∙◌, sym,
}
use mix.Machine.Map.{Map, lookup, insert, remove, change, change_all, Sorted}
use mix.Machine.Map.Laws.{
  lookup-insert, lookup-remove, lookup-change, lookup-change_all, insert-Sorted, remove-Sorted,
  change-Sorted, change_all-Sorted,
}
use mix.Machine.Map.Same.{lookup-ext}

module _ {V : Type 0} (m : Map V) (s : Sorted m) where
  pub insert-remove : (k : Text) (v : V) → lookup k m ≡ some v → insert k v (remove k m) ≡ m
  insert-remove k v found =
      lookup-ext (insert k v (remove k m)) m (insert-Sorted k v (remove k m) (remove-Sorted k m s))
        s
        (λ p. lookup-insert p k v (remove k m) ∙ elim (Bool-cases (k == p)) [
          | inl is ↦ rw is (sym found ∙ ap (λ q. lookup q m) ((text_eq.same_iff k p).0 is))
          | inr other ↦ rw other (lookup-remove p k m s ∙ rw other refl)
        ])

  pub remove-insert : (k : Text) (v : V) → lookup k m ≡ none → remove k (insert k v m) ≡ m
  remove-insert k v missing =
      lookup-ext (remove k (insert k v m)) m
        (remove-Sorted k (insert k v m) (insert-Sorted k v m s)) s
        (λ p.
          lookup-remove p k (insert k v m) (insert-Sorted k v m s) ∙ elim (Bool-cases (k == p)) [
            | inl is ↦ rw is (sym missing ∙ ap (λ q. lookup q m) ((text_eq.same_iff k p).0 is))
            | inr other ↦ rw other (lookup-insert p k v m ∙ rw other refl)
          ])

  map-map :
      (f g : V → V) (o : Option V)
      → ((v : V) → o ≡ some v → g (f v) ≡ v)
      → Option.map g (Option.map f o) ≡ o
  map-map f g none h = refl
  map-map f g (some v) h = ap some (h v refl)

  pub change-change :
      (k : Text) (f g : V → V)
      → ((v : V) → lookup k m ≡ some v → g (f v) ≡ v)
      → change k g (change k f m) ≡ m
  change-change k f g h =
      lookup-ext (change k g (change k f m)) m
        (change-Sorted k g (change k f m) (change-Sorted k f m s)) s
        (λ p.
          lookup-change p k g (change k f m)
          ∙ rw (lookup-change p k f m) (elim (Bool-cases (k == p)) [
            | inr other ↦ rw other refl
            | inl is ↦
                let e = (text_eq.same_iff k p).0 is in
                rw is (map-map f g (lookup p m) (λ v found. h v (ap (λ q. lookup q m) e ∙ found)))
          ]))

  pub change_all-change_all :
      (f g : V → V)
      → ((k : Text) (v : V) → lookup k m ≡ some v → g (f v) ≡ v)
      → change_all g (change_all f m) ≡ m
  change_all-change_all f g h =
      lookup-ext (change_all g (change_all f m)) m
        (change_all-Sorted g (change_all f m) (change_all-Sorted f m s)) s
        (λ p.
          lookup-change_all p g (change_all f m)
          ∙ rw (lookup-change_all p f m) (map-map f g (lookup p m) (h p)))
