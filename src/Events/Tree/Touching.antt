-- ===== src/Events/Tree/Touching.antt =====
-- A change of one node that leaves its place in the tree alone keeps the two sides coupled.
use mathlib.Core.Path.{subst}
use mix.Base.{
  ℕ, Option, none, some, if◌then◌else◌, ◌≡◌, refl, sym, ap, ◌∙◌, arith, inl, inr, ◌==◌, nat_eq,
  count, Bool-cases, some_inj, Text,
}
use mix.Events.Message.{root}
use mix.Events.Validate.Nodes.{lookup, mapped}
use mix.Events.Validate.State.{Record, Validator}
use mix.Events.Tree.State.{Open, Tree, get}
use mix.Events.Tree.Coupling.{Coupled, Matched, Distinct}

pub mapped-some :
    {A : Type 0} (f : A → A) (o : Option A) (x : A)
    → mapped f o ≡ some x
    → (a : A) × (o ≡ some a) × (f a ≡ x)
mapped-some f none x e = absurd (cc)
mapped-some f (some a) x e = (a, refl, some_inj e)

module _ {P : Type 0} {request : Text} {t : Tree P} {v : Validator} (t' : Tree P) (v' : Validator)
    (c : Coupled request t v) (id : ℕ) (g : Open P → Open P) (f : Record → Record)
    (g_parent : (o : Open P) → (g o).parent ≡ o.parent)
    (g_planned : (o : Open P) → (g o).planned ≡ o.planned)
    (f_finished : (r : Record) → (f r).finished ≡ r.finished)
    (f_children : (r : Record) → (f r).open_children ≡ r.open_children)
    (match : (o : Open P) (r : Record)
      → Matched (some o) (some r)
      → Matched (some (g o)) (some (f r)))
    (same_next : t'.next ≡ t.next)
    (table : (i : ℕ)
      → get t'.open_nodes i
        ≡ (if id == i then mapped g (get t.open_nodes i) else get t.open_nodes i))
    (same_root : v'.root_finished ≡ v.root_finished) (asked : v'.request ≡ some request)
    (nodes : (i : ℕ)
      → lookup i v'.nodes
        ≡ (if id == i then mapped f (lookup i v.nodes) else lookup i v.nodes)) where
  match-mapped :
      (o : Option (Open P)) (r : Option Record) → Matched o r → Matched (mapped g o) (mapped f r)
  match-mapped none none m = tt
  match-mapped none (some r) m = f_finished r ∙ m
  match-mapped (some o) none m = m
  match-mapped (some o) (some r) m = match o r m

  -- A node before the change, for one behind it.
  node_before :
      (i : ℕ) (r : Record)
      → lookup i v'.nodes ≡ some r
      → (q : Record) × (lookup i v.nodes ≡ some q)
        × (r.finished ≡ q.finished)
        × (r.open_children ≡ q.open_children)
  node_before i r e = elim (Bool-cases (id == i)) [
    | inl is ↦
        let (q, found, same) = mapped-some f (lookup i v.nodes) r (sym (nodes i ∙ rw is) ∙ e) in
        (
          q,
          found,
          ap (λ (x : Record). x.finished) (sym same) ∙ f_finished q,
          ap (λ (x : Record). x.open_children) (sym same) ∙ f_children q,
        )
    | inr other ↦ (r, sym (nodes i ∙ rw other) ∙ e, refl, refl)
  ]

  node_after :
      (i : ℕ) (q : Record)
      → lookup i v.nodes ≡ some q
      → (r : Record) × (lookup i v'.nodes ≡ some r)
        × (r.finished ≡ q.finished)
        × (r.open_children ≡ q.open_children)
  node_after i q e = elim (Bool-cases (id == i)) [
    | inl is ↦ (f q, nodes i ∙ rw (is, e), f_finished q, f_children q)
    | inr other ↦ (q, nodes i ∙ rw (other, e), refl, refl)
  ]

  open_before :
      (i : ℕ) (x : Open P)
      → get t'.open_nodes i ≡ some x
      → (o : Open P) × (get t.open_nodes i ≡ some o)
        × (x.parent ≡ o.parent)
        × (x.planned ≡ o.planned)
  open_before i x e = elim (Bool-cases (id == i)) [
    | inl is ↦
        let (o, found, same) = mapped-some g (get t.open_nodes i) x (sym (table i ∙ rw is) ∙ e) in
        (
          o,
          found,
          ap (λ (y : Open P). y.parent) (sym same) ∙ g_parent o,
          ap (λ (y : Open P). y.planned) (sym same) ∙ g_planned o,
        )
    | inr other ↦ (x, sym (table i ∙ rw other) ∙ e, refl, refl)
  ]

  pub Coupled-touch : Coupled request t' v'
  Coupled-touch = record {
    at = λ i. elim (Bool-cases (id == i)) [
      | inl is ↦ rw (table i, nodes i, is) (match-mapped _ _ (c.at i))
      | inr other ↦ rw (table i, nodes i, other) (c.at i)
    ];
    fresh = λ i h. nodes i ∙ rw (c.fresh i (omega arith)) (ground arith);
    unlisted = λ i j r h e.
        let (q, found, _, children) = node_before j r e in
        ap (count i) children ∙ c.unlisted i j q (omega arith) found;
    listed = λ i x e n.
        let (o, was, parent, _) = open_before i x e in
        let (q, found, running, counted, below) = c.listed i o was n in
        let (r, now, same, children) = node_after o.parent q found in
        (
          r,
          ap (λ k. lookup k v'.nodes) parent ∙ now,
          same ∙ running,
          ap (count i) children ∙ counted,
          omega arith,
        );
    distinct = λ i x e.
        let (o, was, _, planned) = open_before i x e in
        subst Distinct (sym planned) (c.distinct i o was);
    topmost = λ x e. let (o, was, parent, _) = open_before root x e in parent ∙ c.topmost o was;
    zero_free = nodes 0 ∙ rw c.zero_free (ground arith);
    begun = let (r, now, _, _) = node_after root c.begun.0 c.begun.1 in (r, now);
    ended = ground (arith, same_root, c.ended, table root);
    named = asked;
  }
