-- ===== src/Events/Tree/Finishing.antt =====
-- A node that the tree closes is closed for the reader too, behind the reports of its unclaimed keys.
use mathlib.Core.Bool
use mathlib.Core.Path.{subst}
use mix.Base.{
  ℕ, List, [], ◌∷◌, ◌++◌, none, some, true, false, not, ◌||◌, if◌then◌else◌, ◌≡◌, refl, sym, ap,
  ◌∙◌, arith, inl, inr, ◌==◌, nat_eq, text_eq, contains, find, length, Bool-cases, Text, ==_refl,
}
use mix.Events.Message.{root, known}
use mix.Events.Validate.Nodes.{lookup, adjust, mapped, lookup-adjust}
use mix.Events.Validate.State.{
  Record, Validator, Shape, ok, Outcome, is_unspecified, is_cancelled, has_cause, mismatched,
}
use mix.Events.Validate.Check.{finish_node, push_event, set_outcome}
use mix.Events.Validate.Stream.{Accepts, next, stop, advanced, push-event, Accepts-append}
use mix.Events.Tree.State.{
  Open, Tree, Ending, get, put, closed, closing_events, finished_event, unclaimed,
}
use mix.Events.Tree.Coupling.{Coupled, Matched, parent_apart, root_open, get-put, get-change}
use mix.Events.Tree.Claims.{no_nodes-lookup}
use mix.Events.Tree.Noting.{Free, Noted, noted, with_keys, Accepts-Noted}
use mix.Events.Tree.Planned.{Free-left_over, find-left_over}
use mix.Events.Tree.Closing.{Coupled-close, released, ended_with, fewer}

-- An ending that says what happened, names a cause exactly if it was cancelled, carries a result
-- that suits the node, and an exit code at the root only.
pub record Suits {P : Type 0} (id : ℕ) (shape : Shape) (e : Ending P) : Type 0 where
  pub decided' : is_unspecified e.status ≡ false
  pub caused : has_cause (known e.cancellation) ≡ is_cancelled e.status
  pub fitting : mismatched shape e.result ≡ false
  pub coded : (id == root || e.exit_code == 0) ≡ true

no_child : (xs : List ℕ) → length xs ≡ 0 → xs ≡ []
no_child [] h = refl
no_child (x ∷ xs) h = absurd (omega (arith, h))

module _ {P : Type 0} where
  abbrev after_finish : Validator → ℕ → Record → Ending P → Validator
  after_finish v id r e = record v {
    nodes = adjust r.parent (released id) (adjust id (λ q. record q { finished = true }) v.nodes);
    entries = set_outcome v.entries r.entry (Outcome.finished e.status);
    root_finished = v.root_finished || id == root;
  }

  finish_node-ok :
      (v : Validator) (r : Record) (id : ℕ) (e : Ending P)
      → lookup id v.nodes ≡ some r
      → r.finished ≡ false
      → r.open_children ≡ []
      → find (λ key. not (contains r.keys key)) r.planned ≡ none
      → Suits id r.shape e
      → push_event v (finished_event id e) ≡ ok (after_finish v id r e)
  unfolding push_event finish_node mathlib.Core.Bool.xor
  finish_node-ok v r id e at running alone named s =
      rw (at, running, alone, named, s.decided', s.caused, s.fitting) (ground (arith, s.coded))

module _ {P : Type 0} {request : Text} {t : Tree P} {v : Validator} (c : Coupled request t v)
    (id : ℕ) (o : Open P) (r : Record) (e : Ending P) (open' : get t.open_nodes id ≡ some o)
    (found : lookup id v.nodes ≡ some r) (m : Matched (some o) (some r)) (idle : o.children ≡ 0)
    (s : Suits id r.shape e) where
  abbrev keys : List Text
  keys = with_keys (unclaimed o) r.keys

  lookup-after_finish :
      (w : Validator) (i : ℕ)
      → Noted request id (unclaimed o) v w
      → lookup i (after_finish w id (noted (unclaimed o) r) e).nodes ≡ (
          if o.parent == i
          then mapped (released id) (lookup i v.nodes)
          else if id == i
          then mapped (ended_with keys) (lookup i v.nodes)
          else lookup i v.nodes)
  lookup-after_finish w i n =
      let twice : lookup i (after_finish w id (noted (unclaimed o) r) e).nodes ≡ (
          if r.parent == i
          then mapped (released id)
              (lookup i (adjust id (λ q. record q { finished = true }) w.nodes))
          else lookup i (adjust id (λ q. record q { finished = true }) w.nodes)) =
        lookup-adjust r.parent i (released id) _ in
      twice
      ∙ rw (m.1, lookup-adjust id i (λ q. record q { finished = true }) w.nodes, n.nodes i)
          (elim (Bool-cases (id == i)) [
            | inl own ↦
                let e' : id ≡ i = (nat_eq.same_iff id i).0 own in
                let other : (o.parent == i) ≡ false =
                  ap (λ k. o.parent == k) (sym e') ∙ parent_apart c id o open' in
                let at : lookup i v.nodes ≡ some r = ap (λ k. lookup k v.nodes) (sym e') ∙ found in
                rw (own, other, at) refl
            | inr apart ↦ rw apart refl
          ])

  get-closed :
      (i : ℕ)
      → get (closed t.open_nodes id o.parent) i ≡ (
          if o.parent == i
          then mapped fewer (get t.open_nodes i)
          else if id == i
          then none
          else get t.open_nodes i)
  get-closed i =
      get-change (put t.open_nodes id none) o.parent i fewer
      ∙ rw (get-put t.open_nodes id i none) (elim (Bool-cases (id == i)) [
        | inl own ↦
            let other : (o.parent == i) ≡ false =
              ap (λ k. o.parent == k) (sym ((nat_eq.same_iff id i).0 own))
              ∙ parent_apart c id o open' in
            rw (own, other) refl
        | inr apart ↦ rw apart refl
      ])

  pub Accepts-finish :
      (v' : Validator) × Accepts request v (closing_events id o e) v'
      × Coupled request
          (record t {
            open_nodes = closed t.open_nodes id o.parent;
            outbox = t.outbox ++ closing_events id o e;
          })
          v'
  Accepts-finish =
      let running = root_open c id o open' in
      let (w, reported, n) = Accepts-Noted request id v r (unclaimed o) c.named running found m.0 (
        subst (Free (unclaimed o)) (sym m.3)
          (Free-left_over o.planned o.used (c.distinct id o open'))) in
      let at : lookup id w.nodes ≡ some (noted (unclaimed o) r) =
        n.nodes id ∙ rw (==_refl id, found) in
      let v' = after_finish (advanced w request) id (noted (unclaimed o) r) e in
      let named : find (λ key. not (contains keys key)) r.planned ≡ none =
        rw (m.2, m.3) (find-left_over o.planned o.used) in
      let taken =
        push-event request w v' (finished_event id e) n.asked (n.open' ∙ running)
          (no_nodes-lookup id w.nodes (noted (unclaimed o) r) at)
          (finish_node-ok (advanced w request) (noted (unclaimed o) r) id e at m.0
            (no_child r.open_children (m.4 ∙ idle)) named s) in
      (
        v',
        Accepts-append request reported (next taken refl (stop v')),
        Coupled-close _ v' c id o r keys open' found m idle refl get-closed
            (ap (λ b. b || id == root) n.open') refl
            (λ i.
              lookup-after_finish (advanced w request) i
                (record { asked = refl; open' = n.open'; nodes = n.nodes })),
      )
