-- ===== src/Machine/Map/Laws.antt =====
-- What a map holds behind each operation, and that maps which hold the same are the same.
use mathlib.Core.Option
use mix.Base.{
  [], ◌∷◌, none, some, true, false, if◌then◌else◌, ◌==◌, nat_eq, text_eq, Text, ◌≡◌, refl, arith,
  inl, inr, Bool-cases, ◌∙◌, sym,
}
use mix.Declared.State.{text_leb}
use mix.Declared.Order.{text_leb-total}
use mix.Machine.Map.{Map, precedes, lookup, insert, remove, change, change_all, Above, Sorted}

pub text_leb_trans :
    (a b c : Text) → text_leb a b ≡ true → text_leb b c ≡ true → text_leb a c ≡ true
unfolding text_leb
text_leb_trans [] b c h k = refl
text_leb_trans (x ∷ a) [] c h k = cc
text_leb_trans (x ∷ a) (y ∷ b) [] h k = cc
text_leb_trans (x ∷ a) (y ∷ b) (z ∷ c) h k = ground (arith, text_leb_trans a b c)

pub text_leb_antisymm : (a b : Text) → text_leb a b ≡ true → text_leb b a ≡ true → a ≡ b
unfolding text_leb
text_leb_antisymm [] [] h k = refl
text_leb_antisymm [] (y ∷ b) h k = cc
text_leb_antisymm (x ∷ a) [] h k = cc
text_leb_antisymm (x ∷ a) (y ∷ b) h k = ground (arith, text_leb_antisymm a b)

pub text_leb_refl : (a : Text) → text_leb a a ≡ true
unfolding text_leb
text_leb_refl [] = refl
text_leb_refl (x ∷ a) = ground (arith, text_leb_refl a)

pub precedes_trans :
    (a b c : Text) → precedes a b ≡ true → precedes b c ≡ true → precedes a c ≡ true
precedes_trans a b c h k = ground (arith, text_leb-total b a, text_leb_trans c a b)

pub precedes-ne : (a b : Text) → precedes a b ≡ true → (b == a) ≡ false
precedes-ne a b h = ground (arith, text_leb_refl a, text_eq.same_iff b a)

pub precedes-apart : (a b : Text) → precedes a b ≡ true → (a == b) ≡ false
precedes-apart a b h = ground (arith, text_leb_refl a, text_eq.same_iff a b)

-- Two keys differ in one of two ways.
pub precedes-total : (a b : Text) → (b == a) ≡ false → precedes a b ≡ false → precedes b a ≡ true
precedes-total a b h k =
    ground (arith, text_leb_antisymm a b, text_leb_antisymm b a, text_eq.same_iff b a)

module _ {V : Type 0} where
  pub Above-trans : (j k : Text) (m : Map V) → precedes j k ≡ true → Above k m → Above j m
  Above-trans j k [] h a = tt
  Above-trans j k ((i, w) ∷ m) h a = (precedes_trans j k i h a.0, Above-trans j k m h a.1)

  pub lookup-Above : (k : Text) (m : Map V) → Above k m → lookup k m ≡ none
  unfolding lookup
  lookup-Above k [] a = refl
  lookup-Above k ((j, w) ∷ m) a = rw (precedes-ne k j a.0) (lookup-Above k m a.1)

  Above-insert :
      (j k : Text) (v : V) (m : Map V) → precedes j k ≡ true → Above j m → Above j (insert k v m)
  unfolding insert
  Above-insert j k v [] h a = (h, tt)
  Above-insert j k v ((i, w) ∷ m) h a = ground (arith, Above-insert j k v m h a.1)

  pub insert-Sorted : (k : Text) (v : V) (m : Map V) → Sorted m → Sorted (insert k v m)
  unfolding insert
  insert-Sorted k v [] s = (tt, tt)
  insert-Sorted k v ((j, w) ∷ m) s = elim (Bool-cases (j == k)) [
    | inl is ↦ rw (is, sym ((text_eq.same_iff j k).0 is)) s
    | inr other ↦ elim (Bool-cases (precedes k j)) [
      | inl below ↦ rw (other, below) ((below, Above-trans k j m below s.0), s)
      | inr above ↦
          rw (other, above)
            (Above-insert j k v m (precedes-total k j other above) s.0, insert-Sorted k v m s.1)
    ]
  ]

  Above-remove : (j k : Text) (m : Map V) → Above j m → Above j (remove k m)
  unfolding remove
  Above-remove j k [] a = tt
  Above-remove j k ((i, w) ∷ m) a = ground (arith, Above-remove j k m a.1)

  pub remove-Sorted : (k : Text) (m : Map V) → Sorted m → Sorted (remove k m)
  unfolding remove
  remove-Sorted k [] s = tt
  remove-Sorted k ((j, w) ∷ m) s = ground (arith, remove-Sorted k m s.1, Above-remove j k m s.0)

  Above-change : (j k : Text) (f : V → V) (m : Map V) → Above j m → Above j (change k f m)
  unfolding change
  Above-change j k f [] a = tt
  Above-change j k f ((i, w) ∷ m) a = ground (arith, Above-change j k f m a.1)

  pub change-Sorted : (k : Text) (f : V → V) (m : Map V) → Sorted m → Sorted (change k f m)
  unfolding change
  change-Sorted k f [] s = tt
  change-Sorted k f ((j, w) ∷ m) s =
      ground (arith, change-Sorted k f m s.1, Above-change j k f m s.0)

  Above-change_all : (j : Text) (f : V → V) (m : Map V) → Above j m → Above j (change_all f m)
  unfolding change_all
  Above-change_all j f [] a = tt
  Above-change_all j f ((i, w) ∷ m) a = (a.0, Above-change_all j f m a.1)

  pub change_all-Sorted : (f : V → V) (m : Map V) → Sorted m → Sorted (change_all f m)
  unfolding change_all
  change_all-Sorted f [] s = tt
  change_all-Sorted f ((j, w) ∷ m) s = (Above-change_all j f m s.0, change_all-Sorted f m s.1)

  pub lookup-insert :
      (j k : Text) (v : V) (m : Map V)
      → lookup j (insert k v m) ≡ (if k == j then some v else lookup j m)
  unfolding lookup insert
  lookup-insert j k v [] = refl
  lookup-insert j k v ((i, w) ∷ m) = ground (
    arith,
    text_eq.same_iff k j,
    text_eq.same_iff i k,
    text_eq.same_iff i j,
    lookup-insert j k v m,
  )

  pub lookup-remove :
      (j k : Text) (m : Map V)
      → Sorted m
      → lookup j (remove k m) ≡ (if k == j then none else lookup j m)
  unfolding lookup remove
  lookup-remove j k [] s = ground arith
  lookup-remove j k ((i, w) ∷ m) s = elim (Bool-cases (i == k)) [
    | inr other ↦
        ground (arith, other, text_eq.same_iff k j, text_eq.same_iff i j, lookup-remove j k m s.1)
    | inl is ↦ elim (Bool-cases (k == j)) [
      | inr apart ↦ ground (arith, is, apart, text_eq.same_iff i k)
      | inl same ↦
          let e : j ≡ i = sym ((text_eq.same_iff i k).0 is ∙ (text_eq.same_iff k j).0 same) in
          rw (is, same, e) (lookup-Above i m s.0)
    ]
  ]

  pub lookup-change :
      (j k : Text) (f : V → V) (m : Map V)
      → lookup j (change k f m) ≡ (if k == j then Option.map f (lookup j m) else lookup j m)
  unfolding lookup change
  lookup-change j k f [] = ground arith
  lookup-change j k f ((i, w) ∷ m) = ground (
    arith,
    text_eq.same_iff k j,
    text_eq.same_iff i k,
    text_eq.same_iff i j,
    lookup-change j k f m,
  )

  pub lookup-change_all :
      (j : Text) (f : V → V) (m : Map V) → lookup j (change_all f m) ≡ Option.map f (lookup j m)
  unfolding lookup change_all
  lookup-change_all j f [] = refl
  lookup-change_all j f ((i, w) ∷ m) = ground (arith, lookup-change_all j f m)
