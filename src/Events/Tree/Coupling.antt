-- ===== src/Events/Tree/Coupling.antt =====
-- How the tree and the validator of its stream stand to each other.
use mix.Base.{
  ℕ, zero, suc, ◌≤◌, ◌<◌, List, [], ◌∷◌, Option, none, some, true, false, not, if◌then◌else◌, ◌≡◌,
  ◌≢◌, refl, sym, ap, ◌∙◌, arith, inl, inr, ◌==◌, nat_eq, text_eq, contains, count, length, Text,
  is_some, Bool-cases,
}
use mix.Events.Message.{root}
use mix.Events.Validate.Nodes.{lookup, mapped}
use mix.Events.Validate.State.{Record, Validator}
use mix.Events.Tree.State.{Open, Tree, get, put, change}

module _ {P : Type 0} where
  pub get-put :
      (table : List (Option (Open P))) (id i : ℕ) (o : Option (Open P))
      → get (put table id o) i ≡ (if id == i then o else get table i)
  get-put [] zero zero o = ground arith
  get-put [] zero (suc i) o = ground arith
  get-put [] (suc id) zero o = ground arith
  get-put [] (suc id) (suc i) o = ground (arith, get-put [] id i o)
  get-put (x ∷ table) zero zero o = ground arith
  get-put (x ∷ table) zero (suc i) o = ground arith
  get-put (x ∷ table) (suc id) zero o = ground arith
  get-put (x ∷ table) (suc id) (suc i) o = ground (arith, get-put table id i o)

  change_at :
      List (Option (Open P)) → ℕ → (Open P → Open P) → Option (Open P) → List (Option (Open P))
  change_at table id f found = elim found [ none ↦ table | some o ↦ put table id (some (f o)) ]

  get-change_at :
      (table : List (Option (Open P))) (id i : ℕ) (f : Open P → Open P) (found : Option (Open P))
      → get table id ≡ found
      → get (change_at table id f found) i
        ≡ (if id == i then mapped f (get table i) else get table i)
  unfolding change_at
  get-change_at table id i f none e = ground (arith, e)
  get-change_at table id i f (some o) e = ground (arith, e, get-put table id i (some (f o)))

  pub get-change :
      (table : List (Option (Open P))) (id i : ℕ) (f : Open P → Open P)
      → get (change table id f) i ≡ (if id == i then mapped f (get table i) else get table i)
  unfolding change_at
  get-change table id i f = get-change_at table id i f (get table id) refl

  -- The producer's view of a node and the reader's.
  abbrev pub Matched : Option (Open P) → Option Record → Type 0
  Matched none none = Unit
  Matched none (some r) = r.finished ≡ true
  Matched (some o) none = ⊥
  Matched (some o) (some r) =
      (r.finished ≡ false)
      × (r.parent ≡ o.parent)
      × (r.planned ≡ o.planned)
      × (r.keys ≡ o.used)
      × (length r.open_children ≡ o.children)

abbrev pub Distinct : List Text → Type 0
Distinct [] = Unit
Distinct (key ∷ keys) = (contains keys key ≡ false) × Distinct keys

pub record Coupled {P : Type 0} (request : Text) (t : Tree P) (v : Validator) : Type 0 where
  pub at : (i : ℕ) → Matched (get t.open_nodes i) (lookup i v.nodes)
  pub fresh : (i : ℕ) → t.next ≤ i → lookup i v.nodes ≡ none
  pub unlisted :
      (i j : ℕ) (r : Record) → t.next ≤ i → lookup j v.nodes ≡ some r → count i r.open_children ≡ 0
  pub listed :
      (i : ℕ) (o : Open P)
      → get t.open_nodes i ≡ some o
      → i ≢ root
      → (p : Record) × (lookup o.parent v.nodes ≡ some p)
        × (p.finished ≡ false)
        × (count i p.open_children ≡ 1)
        × (o.parent < i)
  pub distinct : (i : ℕ) (o : Open P) → get t.open_nodes i ≡ some o → Distinct o.planned
  pub topmost : (o : Open P) → get t.open_nodes root ≡ some o → o.parent ≡ 0
  pub zero_free : lookup 0 v.nodes ≡ none
  pub begun : (r : Record) × (lookup root v.nodes ≡ some r)
  pub ended : v.root_finished ≡ not (is_some (get t.open_nodes root))
  pub named : v.request ≡ some request

module _ {P : Type 0} where
  pub Matched-some :
      (o : Open P) (found : Option Record)
      → Matched (some o) found
      → (r : Record) × (found ≡ some r) × Matched (some o) (some r)
  Matched-some o none m = absurd m
  Matched-some o (some r) m = (r, refl, m)

  pub Matched-unfinished :
      (found : Option (Open P)) (r : Record)
      → Matched found (some r)
      → r.finished ≡ false
      → (o : Open P) × (found ≡ some o)
  Matched-unfinished none r m h = absurd (cc)
  Matched-unfinished (some o) r m h = (o, refl)

module _ {P : Type 0} {request : Text} {t : Tree P} {v : Validator} (c : Coupled request t v) where
  -- An open node is known to the reader, which has not seen it finish.
  pub known_node :
      (i : ℕ) (o : Open P)
      → get t.open_nodes i ≡ some o
      → (r : Record) × (lookup i v.nodes ≡ some r) × Matched (some o) (some r)
  known_node i o e = Matched-some o (lookup i v.nodes) (rw e at (c.at i))

  pub still_open :
      (i : ℕ) (r : Record)
      → lookup i v.nodes ≡ some r
      → r.finished ≡ false
      → (o : Open P) × (get t.open_nodes i ≡ some o)
  still_open i r e h = Matched-unfinished (get t.open_nodes i) r (rw e at (c.at i)) h

  root_below :
      (k i : ℕ) (o : Open P)
      → i < k
      → get t.open_nodes i ≡ some o
      → (o' : Open P) × (get t.open_nodes root ≡ some o')
  root_below zero i o h e = elim h [ ]
  root_below (suc k) i o h e = elim (Bool-cases (i == root)) [
    | inl is ↦ (o, ap (get t.open_nodes) (sym ((nat_eq.same_iff i root).0 is)) ∙ e)
    | inr other ↦
        let (p, found, open', counted, below) =
          c.listed i o e (λ q. cc ((nat_eq.same_iff i root).1 q)) in
        let (o', e') = still_open o.parent p found open' in
        root_below k o.parent o' (omega arith) e'
  ]

  -- While any node is open, the root is.
  pub root_open : (i : ℕ) (o : Open P) → get t.open_nodes i ≡ some o → v.root_finished ≡ false
  root_open i o e =
      let (o', e') = root_below (suc i) i o (omega arith) e in
      c.ended ∙ ap (λ f. not (is_some f)) e'

  -- No node is its own parent.
  pub parent_apart : (id : ℕ) (o : Open P) → get t.open_nodes id ≡ some o → (o.parent == id) ≡ false
  parent_apart id o open' = elim (Bool-cases (id == root)) [
    | inl is ↦
        let e : id ≡ root = (nat_eq.same_iff id root).0 is in
        let top : o.parent ≡ 0 = c.topmost o (ap (get t.open_nodes) (sym e) ∙ open') in
        ground (arith, top, e)
    | inr other ↦
        let (_, _, _, _, below) = c.listed id o open' (λ i. cc ((nat_eq.same_iff id root).1 i)) in
        ground (arith, below)
  ]
