-- ===== src/Events/Tree/Closing.antt =====
-- A node without open children that closes keeps the two sides coupled: its parent lets go of it.
use mathlib.Core.Path.{subst}
use mix.Base.{
  ℕ, ◌+◌, ◌-◌, ◌≤◌, ◌<◌, List, [], ◌∷◌, Option, none, some, true, false, not, ◌||◌, if◌then◌else◌,
  ◌≡◌, ◌≢◌, refl, sym, ap, ◌∙◌, arith, inl, inr, ◌==◌, nat_eq, count, filter, length, Bool-cases,
  some_inj, Text,
}
use mix.Events.Message.{root}
use mix.Events.Validate.Nodes.{lookup, mapped}
use mix.Events.Validate.State.{Record, Validator}
use mix.Events.Tree.State.{Open, Tree, get}
use mix.Events.Tree.Coupling.{Coupled, Matched, Distinct, parent_apart}
use mix.Events.Tree.Touching.{mapped-some}

abbrev pub without : ℕ → List ℕ → List ℕ
without id = filter (λ c. not (c == id))

length-without : (id : ℕ) (xs : List ℕ) → length (without id xs) + count id xs ≡ length xs
length-without id [] = refl
length-without id (x ∷ xs) = ground (arith, length-without id xs)

count-without :
    (id i : ℕ) (xs : List ℕ) → count i (without id xs) ≡ (if id == i then 0 else count i xs)
count-without id i [] = ground arith
count-without id i (x ∷ xs) = ground (arith, count-without id i xs)

count-length : (i : ℕ) (xs : List ℕ) → count i xs ≤ length xs
count-length i [] = omega arith
count-length i (x ∷ xs) = ground (arith, count-length i xs)

-- What the parent's record loses, and what the node's own record gains.
abbrev pub released : ℕ → Record → Record
released id p = record p { open_children = without id p.open_children }

abbrev pub ended_with : List Text → Record → Record
ended_with keys r = record r { keys = keys; finished = true }

abbrev pub fewer : {P : Type 0} → Open P → Open P
fewer o = record o { children = o.children - 1 }

module _ {P : Type 0} {request : Text} {t : Tree P} {v : Validator} (t' : Tree P) (v' : Validator)
    (c : Coupled request t v) (id : ℕ) (o : Open P) (r : Record) (keys : List Text)
    (open' : get t.open_nodes id ≡ some o) (found : lookup id v.nodes ≡ some r)
    (m : Matched (some o) (some r)) (idle : o.children ≡ 0) (same_next : t'.next ≡ t.next)
    (table : (i : ℕ)
      → get t'.open_nodes i ≡ (
          if o.parent == i
          then mapped fewer (get t.open_nodes i)
          else if id == i
          then none
          else get t.open_nodes i))
    (same_root : v'.root_finished ≡ (v.root_finished || id == root))
    (asked : v'.request ≡ some request)
    (nodes : (i : ℕ)
      → lookup i v'.nodes ≡ (
          if o.parent == i
          then mapped (released id) (lookup i v.nodes)
          else if id == i
          then mapped (ended_with keys) (lookup i v.nodes)
          else lookup i v.nodes)) where
  -- The parent of a node other than the root lists it once; the root's is 0, which is no node.
  listed_once : (p : Record) → lookup o.parent v.nodes ≡ some p → count id p.open_children ≡ 1
  listed_once p e = elim (Bool-cases (id == root)) [
    | inl is ↦
        let e' : get t.open_nodes root ≡ some o =
          ap (get t.open_nodes) (sym ((nat_eq.same_iff id root).0 is)) ∙ open' in
        absurd (cc (c.zero_free, c.topmost o e', e))
    | inr other ↦
        let (q, at', _, counted, _) =
          c.listed id o open' (λ i. cc ((nat_eq.same_iff id root).1 i)) in
        ap (λ (x : Record). count id x.open_children) (some_inj (sym e ∙ at')) ∙ counted
  ]

  Matched-parent :
      (x : Option (Open P)) (p : Option Record)
      → lookup o.parent v.nodes ≡ p
      → Matched x p
      → Matched (mapped fewer x) (mapped (released id) p)
  Matched-parent none none e h = tt
  Matched-parent none (some p) e h = h
  Matched-parent (some x) none e h = h
  Matched-parent (some x) (some p) e h =
      (h.0, h.1, h.2, h.3, omega (arith, h.4, listed_once p e, length-without id p.open_children))

  at_close : (i : ℕ) → Matched (get t'.open_nodes i) (lookup i v'.nodes)
  at_close i = elim (Bool-cases (o.parent == i)) [
    | inl is ↦
        let e : o.parent ≡ i = (nat_eq.same_iff o.parent i).0 is in
        rw (table i, nodes i, is)
          (Matched-parent (get t.open_nodes i) (lookup i v.nodes) (ap (λ k. lookup k v.nodes) e)
            (c.at i))
    | inr other ↦ elim (Bool-cases (id == i)) [
      | inl own ↦
          let e : lookup i v.nodes ≡ some r =
            ap (λ k. lookup k v.nodes) (sym ((nat_eq.same_iff id i).0 own)) ∙ found in
          rw (table i, nodes i, other, own, e) refl
      | inr apart ↦ rw (table i, nodes i, other, apart) (c.at i)
    ]
  ]

  not_closed : (i : ℕ) (x : Open P) → get t'.open_nodes i ≡ some x → (id == i) ≡ true → ⊥
  not_closed i x e own =
      let e' : id ≡ i = (nat_eq.same_iff id i).0 own in
      let other : (o.parent == i) ≡ false =
        ap (λ k. o.parent == k) (sym e') ∙ parent_apart c id o open' in
      let gone : get t'.open_nodes i ≡ none = table i ∙ rw (other, own) in cc (e, gone)

  -- A node of the table behind the close was there before, and is not the one closed.
  open_before :
      (i : ℕ) (x : Open P)
      → get t'.open_nodes i ≡ some x
      → (y : Open P) × (get t.open_nodes i ≡ some y)
        × (x.parent ≡ y.parent)
        × (x.planned ≡ y.planned)
  open_before i x e = elim (Bool-cases (o.parent == i)) [
    | inl is ↦
        let (y, was, same) = mapped-some fewer (get t.open_nodes i) x (sym (table i ∙ rw is) ∙ e) in
        (
          y,
          was,
          ap (λ (z : Open P). z.parent) (sym same),
          ap (λ (z : Open P). z.planned) (sym same),
        )
    | inr other ↦ elim (Bool-cases (id == i)) [
      | inl own ↦ absurd (cc (table i, other, own, e))
      | inr apart ↦ (x, sym (table i ∙ rw (other, apart)) ∙ e, refl, refl)
    ]
  ]

  unlisted_close :
      (i j : ℕ) (q : Record)
      → t'.next ≤ i
      → lookup j v'.nodes ≡ some q
      → count i q.open_children ≡ 0
  unlisted_close i j q h e = elim (Bool-cases (o.parent == j)) [
    | inl is ↦
        let (p, was, same) =
          mapped-some (released id) (lookup j v.nodes) q (sym (nodes j ∙ rw is) ∙ e) in
        ap (λ (x : Record). count i x.open_children) (sym same)
        ∙ count-without id i p.open_children
        ∙ ground (arith, c.unlisted i j p (omega arith) was)
    | inr other ↦ elim (Bool-cases (id == j)) [
      | inl own ↦
          let (p, was, same) =
            mapped-some (ended_with keys) (lookup j v.nodes) q
              (sym (nodes j ∙ rw (other, own)) ∙ e) in
          ap (λ (x : Record). count i x.open_children) (sym same)
          ∙ c.unlisted i j p (omega arith) was
      | inr apart ↦ c.unlisted i j q (omega arith) (sym (nodes j ∙ rw (other, apart)) ∙ e)
    ]
  ]

  listed_close :
      (i : ℕ) (x : Open P)
      → get t'.open_nodes i ≡ some x
      → i ≢ root
      → (p : Record) × (lookup x.parent v'.nodes ≡ some p)
        × (p.finished ≡ false)
        × (count i p.open_children ≡ 1)
        × (x.parent < i)
  listed_close i x e n =
      let (y, was, parent, _) = open_before i x e in
      let (p, at', running, counted, below) = c.listed i y was n in
      rw parent (elim (Bool-cases (o.parent == y.parent)) [
        | inl is ↦ (
          released id p,
          nodes y.parent ∙ rw (is, at'),
          running,
          count-without id i p.open_children ∙ elim (Bool-cases (id == i)) [
            | inl own ↦ absurd (not_closed i x e own)
            | inr apart ↦ rw apart counted
          ],
          below,
        )
        | inr other ↦ elim (Bool-cases (id == y.parent)) [
          | inl own ↦
              let e' : p ≡ r = some_inj (
                sym at'
                ∙ ap (λ k. lookup k v.nodes) (sym ((nat_eq.same_iff id y.parent).0 own))
                ∙ found) in
              absurd (
                omega (
                  arith,
                  counted,
                  count-length i p.open_children,
                  ap (λ (x : Record). length x.open_children) e',
                  m.4,
                  idle,
                ))
          | inr apart ↦ (p, nodes y.parent ∙ rw (other, apart, at'), running, counted, below)
        ]
      ])

  pub Coupled-close : Coupled request t' v'
  Coupled-close = record {
    at = at_close;
    fresh = λ i h. nodes i ∙ rw (c.fresh i (omega arith)) (ground arith);
    unlisted = unlisted_close;
    listed = listed_close;
    distinct = λ i x e.
        let (y, was, _, planned) = open_before i x e in
        subst Distinct (sym planned) (c.distinct i y was);
    topmost = λ x e. let (y, was, parent, _) = open_before root x e in parent ∙ c.topmost y was;
    zero_free = nodes 0 ∙ rw c.zero_free (ground arith);
    begun = elim (Bool-cases (o.parent == root)) [
      | inl is ↦ (released id c.begun.0, nodes root ∙ rw (is, c.begun.1))
      | inr other ↦ elim (Bool-cases (id == root)) [
        | inl own ↦ (ended_with keys c.begun.0, nodes root ∙ rw (other, own, c.begun.1))
        | inr apart ↦ (c.begun.0, nodes root ∙ rw (other, apart, c.begun.1))
      ]
    ];
    ended =
        ground (
          arith,
          same_root,
          c.ended,
          table root,
          parent_apart c id o open',
          nat_eq.same_iff id root,
        );
    named = asked;
  }
