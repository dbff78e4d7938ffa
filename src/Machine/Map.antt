-- ===== src/Machine/Map.antt =====
-- `BTreeMap` with texts as keys: the entries in the order of their keys.
use mix.Base.{
  List, [], ◌∷◌, Option, none, some, Bool, true, false, not, if◌then◌else◌, ◌==◌, nat_eq, text_eq,
  Text, ◌≡◌,
}
use mix.Declared.State.{text_leb}
pub mod Laws
pub mod Same
pub mod Undo
pub mod Found

abbrev pub Map : Type 0 → Type 0
Map V = List (Text × V)

abbrev pub precedes : Text → Text → Bool
precedes a b = not (text_leb b a)

module _ {V : Type 0} where
  unfoldable pub lookup : Text → Map V → Option V
  lookup k [] = none
  lookup k ((j, v) ∷ m) = if j == k then some v else lookup k m

  unfoldable pub insert : Text → V → Map V → Map V
  insert k v [] = (k, v) ∷ []
  insert k v ((j, w) ∷ m) =
      let rest = insert k v m in
      if j == k then (k, v) ∷ m else if precedes k j then (k, v) ∷ (j, w) ∷ m else (j, w) ∷ rest

  unfoldable pub remove : Text → Map V → Map V
  remove k [] = []
  remove k ((j, w) ∷ m) = if j == k then m else (j, w) ∷ remove k m

  -- `if let Some(value) = map.get_mut(k)`, and what it does to the value.
  unfoldable pub change : Text → (V → V) → Map V → Map V
  change k f [] = []
  change k f ((j, w) ∷ m) = if j == k then (j, f w) ∷ m else (j, w) ∷ change k f m

  -- `for value in map.values_mut()`.
  unfoldable pub change_all : (V → V) → Map V → Map V
  change_all f [] = []
  change_all f ((j, w) ∷ m) = (j, f w) ∷ change_all f m

  -- The key of the first entry whose value passes a test.
  unfoldable pub key_of : (V → Bool) → Map V → Option Text
  key_of p [] = none
  key_of p ((j, w) ∷ m) = if p w then some j else key_of p m

  unfoldable pub keys_of : (V → Bool) → Map V → List Text
  keys_of p [] = []
  keys_of p ((j, w) ∷ m) = if p w then j ∷ keys_of p m else keys_of p m

  abbrev pub Above : Text → Map V → Type 0
  Above k [] = Unit
  Above k ((j, w) ∷ m) = (precedes k j ≡ true) × Above k m

  abbrev pub Sorted : Map V → Type 0
  Sorted [] = Unit
  Sorted ((j, w) ∷ m) = Above j m × Sorted m
