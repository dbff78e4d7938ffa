-- ===== src/Events/Tree/Reporting.antt =====
-- A call on the tree that goes through: the reader accepts what it emits, and stays coupled.
use mathlib.Core.Bool
use mathlib.Core.Path.{subst}
use mix.Base.{
  ℕ, [], ◌∷◌, some, Bool, true, false, if◌then◌else◌, ◌≡◌, refl, sym, xor, arith, inl, inr, Eq,
  nat_eq, text_eq, Option-cases, Bool-cases, Text, ltb, append-nil,
}
use mix.Events.Message.{NotRunReason, Progress, Diagnostic, Event}
use mix.Events.Validate.State.{Validator, is_reasonless, is_blocked, is_empty}
use mix.Events.Validate.Stream.{stop, advanced}
use mix.Events.Tree.State.{
  Tree, Open, Start, Ending, Used, ok, err, not_open, children_open, panicked, get, claim,
  not_run_event, emit, gauged, open_node, closed, closing_events, first_child,
}
use mix.Events.Tree.State
use mix.Events.Tree.Coupling.{Coupled, known_node}
use mix.Events.Tree.Finishing.{Accepts-finish}
use mix.Events.Tree.Calls.{Call, apply, Proper, Used-ok, Claim, granted, refused, claim-Claim}
use mix.Events.Tree.Steps.{
  Reported, started_ok, claims_child, warned, runs, gauged_tree, Coupled-gauged,
}

module _ {P : Type 0} {request : Text} {t : Tree P} {v : Validator} (c : Coupled request t v)
    (t' : Tree P) where
  Reported-start :
      (parent : ℕ) (s : Start P) (u : Used (Tree P))
      → Claim t parent s.key u
      → Proper v (Call.start parent s)
      → (elim u [ ok x ↦ Used.ok (open_node x parent s) | err e ↦ err e ]) ≡ ok t'
      → Reported request t v t'
  Reported-start parent s _ (granted o at free) proper e =
      subst (Reported request t v) (Used-ok e) (started_ok c parent s o at free proper.0 proper.1)
  Reported-start parent s _ (refused _) proper e = absurd (cc)

  Reported-Claim :
      (parent : ℕ) (key by : Text) (reason : NotRunReason) (u : Used (Tree P))
      → Claim t parent key u
      → is_reasonless reason ≡ false
      → xor (is_blocked reason) (is_empty by) ≡ true
      → (elim u [
        | ok x ↦ Used.ok (emit x (not_run_event parent reason by key ∷ []))
        | err e ↦ err e
      ])
        ≡ ok t'
      → Reported request t v t'
  Reported-Claim parent key by reason _ (granted o at free) reasoned named e =
      subst (Reported request t v) (Used-ok e)
        (claims_child c parent key by reason o at free reasoned named)
  Reported-Claim parent key by reason _ (refused _) reasoned named e = absurd (cc)

  Reported-warn : (id : ℕ) (d : Diagnostic P) → State.warn t id d ≡ ok t' → Reported request t v t'
  unfolding State.warn
  Reported-warn id d e = elim (Option-cases (get t.open_nodes id)) [
    | inl missing ↦ absurd (ground (arith, missing, e))
    | inr (o, at) ↦ subst (Reported request t v) (ground (arith, at, e)) (warned c id d o at)
  ]

  Reported-finish :
      (id : ℕ) (ending : Ending P)
      → Proper v (Call.finish id ending)
      → State.finish t id ending ≡ ok t'
      → Reported request t v t'
  unfolding State.finish
  Reported-finish id ending proper e = elim (Option-cases (get t.open_nodes id)) [
    | inl missing ↦ absurd (ground (arith, missing, e))
    | inr (o, at) ↦ elim (Bool-cases (ltb 0 o.children)) [
      | inl busy ↦ elim (Option-cases (first_child id 0 t.open_nodes)) [
        | inl lost ↦ absurd (ground (arith, at, busy, lost, e))
        | inr (child, is) ↦ absurd (ground (arith, at, busy, is, e))
      ]
      | inr idle ↦
          let (r, found, m) = known_node c id o at in
          let (v', accepted, coupled) =
            Accepts-finish c id o r ending at found m (ground (arith, idle)) (proper r found) in
          subst (Reported request t v) (ground (arith, at, idle, e)) (record {
            events = closing_events id o ending;
            reader = v';
            emitted = refl;
            accepted = accepted;
            coupled = coupled;
          })
    ]
  ]

  module _ ⦃eq : Eq P⦄ where
    Reported-gauged :
        (id : ℕ) (p : Progress P) (o : Open P) (news : Bool)
        → get t.open_nodes id ≡ some o
        → Reported request t v (
            if news
            then emit (gauged_tree c id o p) (Event.node_progress id (some p) ∷ [])
            else gauged_tree c id o p)
    unfolding mix.Events.Validate.Check.push_event
    Reported-gauged id p o true at = record {
      events = Event.node_progress id (some p) ∷ [];
      reader = advanced v request;
      emitted = refl;
      accepted = runs c id o (Event.node_progress id (some p)) at refl;
      coupled =
          Coupled-gauged c id o p (Event.node_progress id (some p) ∷ []) (advanced v request) at
            refl refl refl;
    }
    Reported-gauged id p o false at = record {
      events = [];
      reader = v;
      emitted = sym (append-nil t.outbox);
      accepted = stop v;
      coupled =
          subst (λ l. Coupled request (record (gauged_tree c id o p) { outbox = l }) v)
            (append-nil t.outbox) (Coupled-gauged c id o p [] v at refl refl c.named);
    }

    Reported-progress :
        (id : ℕ) (p : Progress P) → State.progress t id p ≡ ok t' → Reported request t v t'
    unfolding State.progress
    Reported-progress id p e = elim (Option-cases (get t.open_nodes id)) [
      | inl missing ↦ absurd (ground (arith, missing, e))
      | inr (o, at) ↦
          subst (Reported request t v) (ground (arith, at, e))
            (Reported-gauged id p o (gauged o p).1 at)
    ]

    -- Whatever a client may call and the tree accepts, the reader of the stream accepts what the
    -- tree emits for it, and the tree and the reader stay coupled.
    pub apply-Reported :
        (call : Call P) → Proper v call → apply t call ≡ ok t' → Reported request t v t'
    unfolding apply State.start State.not_run State.blocked mathlib.Core.Bool.xor
    apply-Reported (Call.start parent s) proper e =
        Reported-start parent s (claim t parent s.key) (claim-Claim t parent s.key) proper e
    apply-Reported (Call.not_run parent key reason) proper e =
        Reported-Claim parent key [] reason (claim t parent key) (claim-Claim t parent key) proper.0
          (ground (arith, proper.1)) e
    apply-Reported (Call.blocked parent key by) proper e =
        Reported-Claim parent key by NotRunReason.blocked (claim t parent key)
          (claim-Claim t parent key) refl (ground (arith, proper)) e
    apply-Reported (Call.progress id p) proper e = Reported-progress id p e
    apply-Reported (Call.warn id d) proper e = Reported-warn id d e
    apply-Reported (Call.finish id ending) proper e = Reported-finish id ending proper e
