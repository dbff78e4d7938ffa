-- ===== src/Events/Tree/Steps.antt =====
-- Each call that a client may make and the tree accepts: the reader accepts what it emits, and the
-- two sides stay coupled.
use native.Mathlib.Decide.{dec_le}
use mix.Base.{
  ℕ, ◌<◌, List, [], ◌∷◌, ◌++◌, none, some, Bool, true, false, if◌then◌else◌, ◌≡◌, refl, sym, ap,
  ◌∙◌, xor, arith, inl, inr, Eq, ◌==◌, nat_eq, text_eq, contains, Option-cases, Bool-cases, Text,
}
use mix.Events.Message.{root, NotRunReason, Kind, Progress, Diagnostic, Event, Severity}
use mix.Events.Validate.Nodes.{NodeMap, lookup, adjust, mapped, lookup-adjust}
use mix.Events.Validate.State.{
  Record, Validator, is_reasonless, is_blocked, is_empty, Entry, Outcome, child_path,
}
use mix.Events.Validate.State as Reader
use mix.Events.Validate.Check.{valid_target, checked_kind, push_event, child_not_run, running_node}
use mix.Events.Validate.Stream.{Accepts, next, stop, advanced, push-event}
use mix.Events.Tree.State.{
  Tree, Open, Start, get, put, not_run_event, started_event, emit, gauged, open_node,
}
use mix.Events.Tree.Coupling.{Coupled, Distinct, known_node, root_open, get-put, get-change}
use mix.Events.Tree.Claims.{no_nodes-lookup, with_child, message, after_start, started-child}
use mix.Events.Tree.Starting.{Coupled-start}
use mix.Events.Tree.Touching.{Coupled-touch}
use mix.Events.Tree.Calls.{proper_kind, claimed_tree}

-- What a call that went through leaves.
pub record Reported {P : Type 0} (request : Text) (t : Tree P) (v : Validator) (t' : Tree P)
    : Type 0 where
  pub events : List (Event P)
  pub reader : Validator
  pub emitted : t'.outbox ≡ t.outbox ++ events
  pub accepted : Accepts request v events reader
  pub coupled : Coupled request t' reader

valid_target-with_child :
    (nodes : NodeMap Record) (undoes parent id : ℕ) (key : Text)
    → valid_target (adjust parent (with_child id key) nodes) undoes parent
      ≡ valid_target nodes undoes parent
valid_target-with_child nodes undoes parent id key =
    rw (lookup-adjust parent undoes (with_child id key) nodes, valid_target)
      (elim (Option-cases (lookup undoes nodes)) [
        | inl missing ↦ rw missing (ground arith)
        | inr (r, at) ↦ rw at (ground arith)
      ])

module _ {P : Type 0} where
  checked_kind-proper :
      (nodes : NodeMap Record) (id parent : ℕ) (key : Text) (planned : List Text) (shielded : Bool)
      (k : Kind P)
      → proper_kind nodes parent k ≡ true
      → checked_kind (adjust parent (with_child id key) nodes) (
          message id parent
            (record { key = key; planned = planned; shielded = shielded; kind = k }))
        ≡ Reader.Checked.ok tt
  checked_kind-proper nodes id parent key planned shielded (Kind.rollback undoes) h =
      rw (valid_target-with_child nodes undoes parent id key, h) refl
  checked_kind-proper nodes id parent key planned shielded _ h = refl

module _ {P : Type 0} {request : Text} {t : Tree P} {v : Validator} (c : Coupled request t v) where
  root_below_next : root < t.next
  root_below_next = elim (dec_le t.next root) [
    | yes h ↦ absurd (cc (c.fresh root h, c.begun.1))
    | no h ↦ omega arith
  ]

  pub started_ok :
      (parent : ℕ) (s : Start P) (o : Open P)
      → get t.open_nodes parent ≡ some o
      → contains o.used s.key ≡ false
      → Distinct s.planned
      → proper_kind v.nodes parent s.kind ≡ true
      → Reported request t v (open_node (claimed_tree t parent s.key) parent s)
  unfolding open_node push_event
  started_ok parent s o at free d proper =
      let (p, found, m) = known_node c parent o at in
      let fresh : lookup t.next v.nodes ≡ none = c.fresh t.next (omega arith) in
      let v' = after_start (advanced v request) t.next parent p s in
      record {
        events = started_event t.next parent s ∷ [];
        reader = v';
        emitted = refl;
        accepted =
            next
              (push-event request v v' (started_event t.next parent s) c.named
                (root_open c parent o at) (no_nodes-lookup parent v.nodes p found)
                (started-child (advanced v request) t.next parent p s
                  (ground (arith, root_below_next)) (ground (arith, root_below_next)) fresh found
                  m.0 (ap (λ ks. contains ks s.key) m.3 ∙ free)
                  (checked_kind-proper v.nodes t.next parent s.key s.planned s.shielded s.kind
                    proper)))
              refl (stop v');
        coupled = Coupled-start c parent s o p at found m d;
      }

  pub claims_child :
      (parent : ℕ) (key by : Text) (reason : NotRunReason) (o : Open P)
      → get t.open_nodes parent ≡ some o
      → contains o.used key ≡ false
      → is_reasonless reason ≡ false
      → xor (is_blocked reason) (is_empty by) ≡ true
      → Reported request t v
          (emit (claimed_tree t parent key) (not_run_event parent reason by key ∷ []))
  unfolding push_event child_not_run
  claims_child parent key by reason o at free reasoned named =
      let (p, found, m) = known_node c parent o at in
      let f : Record → Record = λ q. record q { keys = key ∷ q.keys } in
      let v' : Validator = record (advanced v request) {
        nodes = adjust parent f v.nodes;
        entries =
            v.entries
            ++ record {
              id = none;
              path = child_path v.entries p key;
              outcome = Outcome.not_run reason;
            }
              ∷ [];
      } in
      let t' = emit (claimed_tree t parent key) (not_run_event parent reason by key ∷ []) in
      record {
        events = not_run_event parent reason by key ∷ [];
        reader = v';
        emitted = refl;
        accepted =
            next
              (push-event request v v' (not_run_event parent reason by key) c.named
                (root_open c parent o at) (no_nodes-lookup parent v.nodes p found)
                (rw (found, m.0, ap (λ ks. contains ks key) m.3 ∙ free, reasoned, named) refl))
              refl (stop v');
        coupled =
            Coupled-touch t' v' c parent (λ x. record x { used = key ∷ x.used }) f (λ _. refl)
              (λ _. refl) (λ _. refl) (λ _. refl)
              (λ x q h. (h.0, h.1, h.2, ap (λ ks. key ∷ ks) h.3, h.4)) refl
              (λ i. get-change t.open_nodes parent i (λ x. record x { used = key ∷ x.used })) refl
              refl (λ i. lookup-adjust parent i f v.nodes);
      }

  same_nodes :
      (id i : ℕ)
      → lookup i v.nodes
        ≡ (if id == i then mapped (λ q. q) (lookup i v.nodes) else lookup i v.nodes)
  same_nodes id i = elim (Option-cases (lookup i v.nodes)) [
    | inl missing ↦ rw missing (ground arith)
    | inr (r, at) ↦ rw at (ground arith)
  ]

  -- What the node says on the way is taken while it runs.
  pub runs :
      (id : ℕ) (o : Open P) (event : Event P)
      → get t.open_nodes id ≡ some o
      → push_event (advanced v request) event ≡ running_node (advanced v request) id
      → Accepts request v (event ∷ []) (advanced v request)
  unfolding running_node
  runs id o event at e =
      let (p, found, m) = known_node c id o at in
      next
        (push-event request v (advanced v request) event c.named (root_open c id o at)
          (no_nodes-lookup id v.nodes p found) (e ∙ rw (found, m.0) refl))
        refl (stop (advanced v request))

  pub warned :
      (id : ℕ) (d : Diagnostic P) (o : Open P)
      → get t.open_nodes id ≡ some o
      → Reported request t v
          (emit t (Event.diagnostic (record d { node = id; severity = Severity.warning }) ∷ []))
  unfolding push_event
  warned id d o at =
      let event = Event.diagnostic (record d { node = id; severity = Severity.warning }) in
      record {
        events = event ∷ [];
        reader = advanced v request;
        emitted = refl;
        accepted = runs id o event at refl;
        coupled = record {
          at = c.at;
          fresh = c.fresh;
          unlisted = c.unlisted;
          listed = c.listed;
          distinct = c.distinct;
          topmost = c.topmost;
          zero_free = c.zero_free;
          begun = c.begun;
          ended = c.ended;
          named = refl;
        };
      }

  module _ ⦃eq : Eq P⦄ where
    gauged-parts :
        (o : Open P) (p : Progress P)
        → ((gauged o p).0.parent ≡ o.parent)
          × ((gauged o p).0.planned ≡ o.planned)
          × ((gauged o p).0.used ≡ o.used)
          × ((gauged o p).0.children ≡ o.children)
    unfolding gauged
    gauged-parts o (Progress.builds _) = (refl, refl, refl, refl)
    gauged-parts o (Progress.bytes _) = (refl, refl, refl, refl)
    gauged-parts o _ = (refl, refl, refl, refl)

    abbrev pub gauged_tree : ℕ → Open P → Progress P → Tree P
    gauged_tree id o p = record t { open_nodes = put t.open_nodes id (some (gauged o p).0) }

    pub Coupled-gauged :
        (id : ℕ) (o : Open P) (p : Progress P) (more : List (Event P)) (v' : Validator)
        → get t.open_nodes id ≡ some o
        → v'.nodes ≡ v.nodes
        → v'.root_finished ≡ v.root_finished
        → v'.request ≡ some request
        → Coupled request (emit (gauged_tree id o p) more) v'
    Coupled-gauged id o p more v' at nodes same asked =
        Coupled-touch (emit (gauged_tree id o p) more) v' c id (λ x. (gauged x p).0) (λ q. q)
          (λ x. (gauged-parts x p).0) (λ x. (gauged-parts x p).1) (λ _. refl) (λ _. refl)
          (λ x q h.
            let (parent, planned, used, children) = gauged-parts x p in
            (h.0, h.1 ∙ sym parent, h.2 ∙ sym planned, h.3 ∙ sym used, h.4 ∙ sym children))
          refl
          (λ i. get-put t.open_nodes id i (some (gauged o p).0) ∙ (elim (Bool-cases (id == i)) [
            | inl own ↦
                let at' : get t.open_nodes i ≡ some o =
                  ap (get t.open_nodes) (sym ((nat_eq.same_iff id i).0 own)) ∙ at in
                rw (own, at') refl
            | inr apart ↦ rw apart refl
          ]))
          same asked (λ i. ap (lookup i) nodes ∙ same_nodes id i)
