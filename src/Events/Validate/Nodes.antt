-- ===== src/Events/Validate/Nodes.antt =====
-- A hash map from node ids, as an association list.
use mix.Base.{ℕ, List, [], ◌∷◌, Option, none, some, ◌≡◌, arith, ◌==◌, nat_eq, if◌then◌else◌}

abbrev pub NodeMap : Type 0 → Type 0
NodeMap V = List (ℕ × V)

module _ {V : Type 0} where
  abbrev pub lookup : ℕ → NodeMap V → Option V
  lookup id [] = none
  lookup id ((j, v) ∷ nodes) = if j == id then some v else lookup id nodes

  -- A write through `get_mut`: nothing happens where the id is missing.
  abbrev pub adjust : ℕ → (V → V) → NodeMap V → NodeMap V
  adjust id f [] = []
  adjust id f ((j, v) ∷ nodes) = (j, if j == id then f v else v) ∷ adjust id f nodes

  abbrev pub mapped : (V → V) → Option V → Option V
  mapped f none = none
  mapped f (some v) = some (f v)

  pub lookup-adjust :
      (id i : ℕ) (f : V → V) (nodes : NodeMap V)
      → lookup i (adjust id f nodes)
        ≡ (if id == i then mapped f (lookup i nodes) else lookup i nodes)
  lookup-adjust id i f [] = ground arith
  lookup-adjust id i f ((j, v) ∷ nodes) = ground (arith, lookup-adjust id i f nodes)
