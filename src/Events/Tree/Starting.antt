-- ===== src/Events/Tree/Starting.antt =====
-- A start that the tree allows is accepted, and keeps the two sides coupled.
use mathlib.Core.Path.{subst}
use native.Mathlib.Decide.{dec_le}
use mix.Base.{
  ℕ, ◌+◌, ◌≤◌, ◌<◌, List, [], ◌∷◌, ◌++◌, Option, none, some, true, false, if◌then◌else◌, ◌≡◌, ◌≢◌,
  refl, sym, ap, ◌∙◌, arith, ==_refl, inl, inr, ◌==◌, nat_eq, text_eq, count, Text, Bool-cases,
  some_inj,
}
use mix.Events.Message.{root}
use mix.Events.Validate.Nodes.{lookup, mapped, lookup-adjust}
use mix.Events.Validate.State.{Record, Validator}
use mix.Events.Tree.State.{Open, Tree, Start, get, opened, started_event}
use mix.Events.Tree.Coupling.{Coupled, Matched, Distinct}
use mix.Events.Tree.Claims.{
  with_child, with_open_child, table_after_start, get-after_start, after_start, length-insert_id,
  count-insert_id,
}

module _ {P : Type 0} {request : Text} {t : Tree P} {v : Validator} (c : Coupled request t v)
    (parent : ℕ) (s : Start P) (o : Open P) (p : Record) (open' : get t.open_nodes parent ≡ some o)
    (found : lookup parent v.nodes ≡ some p) (m : Matched (some o) (some p)) where
  below_next : (i : ℕ) (r : Record) → lookup i v.nodes ≡ some r → i < t.next
  below_next i r e = elim (dec_le t.next i) [
    | yes h ↦ absurd (cc (c.fresh i h))
    | no h ↦ omega arith
  ]

  not_next : (i : ℕ) (r : Record) → lookup i v.nodes ≡ some r → (t.next == i) ≡ false
  not_next i r e = let h : i < t.next = below_next i r e in ground (arith, h)

  abbrev table : List (Option (Open P))
  table = table_after_start t parent s

  abbrev later : Validator
  later = after_start v t.next parent p s

  Matched-child : Matched (some (with_open_child s.key o)) (some (with_child t.next s.key p))
  Matched-child = (
    m.0,
    m.1,
    m.2,
    ap (λ l. s.key ∷ l) m.3,
    length-insert_id t.next p.open_children (c.unlisted t.next parent p (omega arith) found)
        ∙ ap (λ k. k + 1) m.4,
  )

  at_start : (i : ℕ) → Matched (get table i) (lookup i later.nodes)
  at_start i = elim (Bool-cases (t.next == i)) [
    | inl new ↦ rw (get-after_start t parent s i, new) (refl, refl, refl, refl, refl)
    | inr old ↦ elim (Bool-cases (parent == i)) [
      | inl is ↦
          let e : parent ≡ i = (nat_eq.same_iff parent i).0 is in
          rw
            (
              get-after_start t parent s i,
              lookup-adjust parent i (with_child t.next s.key) v.nodes,
              old,
              is,
              ← e,
              open',
              found,
            )
            Matched-child
      | inr other ↦
          rw
            (
              get-after_start t parent s i,
              lookup-adjust parent i (with_child t.next s.key) v.nodes,
              old,
              other,
            )
            (c.at i)
    ]
  ]

  lookup-later :
      (i : ℕ)
      → (t.next == i) ≡ false
      → lookup i later.nodes ≡ (
          if parent == i
          then mapped (with_child t.next s.key) (lookup i v.nodes)
          else lookup i v.nodes)
  lookup-later i old = rw (old, lookup-adjust parent i (with_child t.next s.key) v.nodes)

  fresh_start : (i : ℕ) → t.next + 1 ≤ i → lookup i later.nodes ≡ none
  fresh_start i h =
      let old : (t.next == i) ≡ false = ground arith in
      lookup-later i old ∙ rw (c.fresh i (omega arith)) (ground arith)

  parent_fresh : count t.next p.open_children ≡ 0
  parent_fresh = c.unlisted t.next parent p (omega arith) found

  later-parent : lookup parent later.nodes ≡ some (with_child t.next s.key p)
  later-parent = lookup-later parent (not_next parent p found) ∙ rw (==_refl parent, found)

  later-other :
      (i : ℕ) (r : Record)
      → lookup i v.nodes ≡ some r
      → (parent == i) ≡ false
      → lookup i later.nodes ≡ some r
  later-other i r e other = lookup-later i (not_next i r e) ∙ rw other e

  unlisted_start :
      (i j : ℕ) (r : Record)
      → t.next + 1 ≤ i
      → lookup j later.nodes ≡ some r
      → count i r.open_children ≡ 0
  unlisted_start i j r h e = elim (Bool-cases (t.next == j)) [
    | inl new ↦ ground (arith, e)
    | inr old ↦ elim (Bool-cases (parent == j)) [
      | inl is ↦ ground (
        arith,
        later-parent,
        e,
        count-insert_id t.next i p.open_children parent_fresh,
        c.unlisted i parent p (omega arith) found,
      )
      | inr other ↦ c.unlisted i j r (omega arith) (sym (lookup-later j old ∙ rw other) ∙ e)
    ]
  ]

  -- The parent of an open node holds it, and is older.
  abbrev Held : ℕ → Open P → Type 0
  Held i x =
      (q : Record) × (lookup x.parent later.nodes ≡ some q)
      × (q.finished ≡ false)
      × (count i q.open_children ≡ 1)
      × (x.parent < i)

  still-Held :
      (i : ℕ) (x : Open P)
      → (t.next == i) ≡ false
      → get t.open_nodes i ≡ some x
      → i ≢ root
      → Held i x
  still-Held i x old e n =
      let (q, at', running', counted, below) = c.listed i x e n in
      elim (Bool-cases (parent == x.parent)) [
        | inl is ↦
            let e' : parent ≡ x.parent = (nat_eq.same_iff parent x.parent).0 is in
            (
              with_child t.next s.key p,
              ap (λ k. lookup k later.nodes) (sym e') ∙ later-parent,
              m.0,
              ground (
                arith,
                at',
                found,
                counted,
                count-insert_id t.next i p.open_children parent_fresh,
              ),
              below,
            )
        | inr other ↦ (q, later-other x.parent q at' other, running', counted, below)
      ]

  new_node :
      (i : ℕ) (x : Open P) → (t.next == i) ≡ true → get table i ≡ some x → opened parent s ≡ x
  new_node i x new e =
      let e' : get table i ≡ some (opened parent s) = get-after_start t parent s i ∙ rw new in
      some_inj (sym e' ∙ e)

  parent_node : (i : ℕ) → (parent == i) ≡ true → get t.open_nodes i ≡ some o
  parent_node i is = ap (get t.open_nodes) (sym ((nat_eq.same_iff parent i).0 is)) ∙ open'

  new_parent :
      (i : ℕ) (x : Open P)
      → (t.next == i) ≡ false
      → (parent == i) ≡ true
      → get table i ≡ some x
      → with_open_child s.key o ≡ x
  new_parent i x old is e =
      let e' : get table i ≡ some (with_open_child s.key o) =
        get-after_start t parent s i ∙ rw (old, is, parent_node i is) in
      some_inj (sym e' ∙ e)

  listed_start : (i : ℕ) (x : Open P) → get table i ≡ some x → i ≢ root → Held i x
  listed_start i x e n = elim (Bool-cases (t.next == i)) [
    | inl new ↦ subst (Held i) (new_node i x new e) (
      with_child t.next s.key p,
      later-parent,
      m.0,
      ground (
        arith,
        count-insert_id t.next i p.open_children parent_fresh,
        c.unlisted i parent p (ground arith) found,
      ),
      subst (λ k. parent < k) ((nat_eq.same_iff t.next i).0 new) (below_next parent p found),
    )
    | inr old ↦ elim (Bool-cases (parent == i)) [
      | inl is ↦
          let e' = parent_node i is in
          subst (Held i) (new_parent i x old is e) (still-Held i o old e' n)
      | inr other ↦ still-Held i x old (sym (get-after_start t parent s i ∙ rw (old, other)) ∙ e) n
    ]
  ]

  Distinct-start :
      Distinct s.planned → (i : ℕ) (x : Open P) → get table i ≡ some x → Distinct x.planned
  Distinct-start d i x e = elim (Bool-cases (t.next == i)) [
    | inl new ↦ subst (λ (y : Open P). Distinct y.planned) (new_node i x new e) d
    | inr old ↦ elim (Bool-cases (parent == i)) [
      | inl is ↦
          subst (λ (y : Open P). Distinct y.planned) (new_parent i x old is e)
            (c.distinct i o (parent_node i is))
      | inr other ↦ c.distinct i x (sym (get-after_start t parent s i ∙ rw (old, other)) ∙ e)
    ]
  ]

  topmost_start : (x : Open P) → get table root ≡ some x → x.parent ≡ 0
  topmost_start x e =
      let old = not_next root c.begun.0 c.begun.1 in
      elim (Bool-cases (parent == root)) [
        | inl is ↦
            ap (λ (y : Open P). y.parent) (sym (new_parent root x old is e))
            ∙ c.topmost o (parent_node root is)
        | inr other ↦ c.topmost x (sym (get-after_start t parent s root ∙ rw (old, other)) ∙ e)
      ]

  parent_not : (k : ℕ) → lookup k v.nodes ≡ none → (parent == k) ≡ false
  parent_not k e = ground (arith, found, e)

  pub Coupled-start :
      Distinct s.planned
      → Coupled request
          (record {
            next = t.next + 1;
            open_nodes = table;
            outbox = t.outbox ++ started_event t.next parent s ∷ [];
          })
          (record later { next_seq = v.next_seq + 1; request = some request })
  Coupled-start d = record {
    at = at_start;
    fresh = fresh_start;
    unlisted = unlisted_start;
    listed = listed_start;
    distinct = Distinct-start d;
    topmost = topmost_start;
    zero_free =
        lookup-later 0 (ground (arith, below_next root c.begun.0 c.begun.1))
        ∙ rw (parent_not 0 c.zero_free) c.zero_free;
    begun = elim (Bool-cases (parent == root)) [
      | inl is ↦ (
        with_child t.next s.key p,
        ap (λ k. lookup k later.nodes) (sym ((nat_eq.same_iff parent root).0 is)) ∙ later-parent,
      )
      | inr other ↦ (c.begun.0, later-other root c.begun.0 c.begun.1 other)
    ];
    ended =
        ground (arith, c.ended, get-after_start t parent s root, not_next root c.begun.0 c.begun.1);
    named = refl;
  }
