-- ===== src/Run/Runner/Chain.antt =====
-- The nodes that the runner of crates/core/src/run/mod.rs has open: a chain, each node the only open
-- child of the next, and what the calls of crates/events/src/tree.rs make of it.
use mix.Base.{
  ℕ, ◌+◌, ◌-◌, ◌≤◌, ◌<◌, List, [], ◌∷◌, ◌++◌, Option, none, some, false, if◌then◌else◌, ◌≡◌, refl,
  ap, ◌∙◌, arith, ◌==◌, nat_eq, text_eq, contains, Text,
}
use mix.Events.Message.{Diagnostic, NotRunReason, Event, Severity}
use mix.Events.Validate.Nodes.{mapped}
use mix.Events.Tree.State.{
  Open, Tree, Start, Ending, ok, get, put, claim, claimed, open_node, start, blocked, warn, finish,
  closed, opened, started_event, not_run_event, closing_events, emit,
}
use mix.Events.Tree.Claims.{table_after_start, get-after_start}
use mix.Events.Tree.Coupling.{get-put, get-change}

-- A node of the chain: its id and the keys used under it.
abbrev pub Link : Type 0
Link = ℕ × List Text

abbrev Above : ℕ → List Link → Type 0
Above parent [] = Unit
Above parent ((id, _) ∷ _) = parent ≡ id

module _ {P : Type 0} where
  -- The chain from its lowest node, whose id is below `bound` and whose children are counted.
  abbrev pub Chain : List (Option (Open P)) → ℕ → ℕ → List Link → Type 0
  Chain table bound children [] = Unit
  Chain table bound children ((id, used) ∷ links) =
      (o : Open P) × (get table id ≡ some o)
      × (o.used ≡ used)
      × (o.children ≡ children)
      × (id < bound)
      × (o.parent < id)
      × Above o.parent links
      × Chain table id 1 links

  abbrev pub Held : Tree P → List Link → Type 0
  Held t links = Chain t.open_nodes t.next 0 links

  Chain-same :
      (table table' : List (Option (Open P))) (bound bound' children : ℕ) (links : List Link)
      → bound ≤ bound'
      → ((i : ℕ) → i < bound → get table' i ≡ get table i)
      → Chain table bound children links
      → Chain table' bound' children links
  Chain-same table table' bound bound' children [] h same c = tt
  Chain-same table table' bound bound' children ((id, used) ∷ links) h same
        (o, at, keys, counted, below, over, above, rest) =
      (
        o,
        same id below ∙ at,
        keys,
        counted,
        (omega arith),
        over,
        above,
        Chain-same table table' id id 1 links (omega arith) (λ i l. same i (omega arith)) rest,
      )

  -- The tree that a start makes.
  abbrev pub after_start : Tree P → ℕ → Start P → Tree P
  after_start t id s = record {
    next = t.next + 1;
    open_nodes = table_after_start t id s;
    outbox = t.outbox ++ started_event t.next id s ∷ [];
  }

  pub start-ok :
      (t : Tree P) (id : ℕ) (s : Start P) (o : Open P)
      → get t.open_nodes id ≡ some o
      → contains o.used s.key ≡ false
      → start t id s ≡ ok (after_start t id s)
  unfolding claim start open_node
  start-ok t id s o at free = ground (arith, at, free)

  Held-start :
      (t : Tree P) (id : ℕ) (used : List Text) (links : List Link) (s : Start P)
      → Held t ((id, used) ∷ links)
      → Held (after_start t id s) ((t.next, []) ∷ (id, s.key ∷ used) ∷ links)
  Held-start t id used links s (o, at, keys, counted, below, over, above, rest) =
      let table = get-after_start t id s in
      (
        opened id s,
        table t.next ∙ ground arith,
        refl,
        refl,
        omega arith,
        below,
        refl,
        (
          record o { used = s.key ∷ o.used; children = o.children + 1 },
          table id ∙ ground (arith, at, below),
          ap (λ used. s.key ∷ used) keys,
          omega (arith, counted),
          below,
          over,
          above,
          Chain-same t.open_nodes (table_after_start t id s) id id 1 links (omega arith)
              (λ i l. table i ∙ ground (arith, l, below)) rest,
        ),
      )

  pub start-Held :
      (t : Tree P) (id : ℕ) (used : List Text) (links : List Link) (s : Start P)
      → Held t ((id, used) ∷ links)
      → contains used s.key ≡ false
      → (start t id s ≡ ok (after_start t id s))
        × Held (after_start t id s) ((t.next, []) ∷ (id, s.key ∷ used) ∷ links)
  start-Held t id used links s h free =
      let (o, at, keys, _, _, _, _, _) = h in
      (
        start-ok t id s o at (ap (λ used. contains used s.key) keys ∙ free),
        Held-start t id used links s h,
      )

  get-claimed :
      (t : Tree P) (id : ℕ) (key : Text) (i : ℕ)
      → get (claimed t.open_nodes id key) i ≡ (
          if id == i
          then mapped (λ o. record o { used = key ∷ o.used }) (get t.open_nodes i)
          else get t.open_nodes i)
  get-claimed t id key i = get-change t.open_nodes id i (λ o. record o { used = key ∷ o.used })

  pub blocked-Held :
      (t : Tree P) (id : ℕ) (used : List Text) (links : List Link) (key by : Text)
      → Held t ((id, used) ∷ links)
      → contains used key ≡ false
      → (t' : Tree P) × (blocked t id key by ≡ ok t') × Held t' ((id, key ∷ used) ∷ links)
  unfolding claim blocked
  blocked-Held t id used links key by (o, at, keys, counted, below, over, above, rest) free = (
    record t {
      open_nodes = claimed t.open_nodes id key;
      outbox = t.outbox ++ not_run_event id NotRunReason.blocked by key ∷ [];
    },
    (let free' : contains o.used key ≡ false = ap (λ used. contains used key) keys ∙ free in
        ground (arith, at, free')),
    (
      record o { used = key ∷ o.used },
      get-claimed t id key id ∙ ground (arith, at),
      ap (λ used. key ∷ used) keys,
      counted,
      below,
      over,
      above,
      Chain-same t.open_nodes (claimed t.open_nodes id key) id id 1 links (omega arith)
          (λ i l. get-claimed t id key i ∙ ground (arith, l)) rest,
    ),
  )

  pub warn-Held :
      (t : Tree P) (id : ℕ) (used : List Text) (links : List Link) (d : Diagnostic P)
      → Held t ((id, used) ∷ links)
      → (t' : Tree P) × (warn t id d ≡ ok t') × Held t' ((id, used) ∷ links)
  unfolding warn
  warn-Held t id used links d h =
      let (o, at, _, _, _, _, _, _) = h in
      (
        emit t (Event.diagnostic (record d { node = id; severity = Severity.warning }) ∷ []),
        ground (arith, at),
        h,
      )

  get-closed :
      (table : List (Option (Open P))) (id parent i : ℕ)
      → parent < id
      → get (closed table id parent) i ≡ (
          if parent == i
          then mapped (λ p. record p { children = p.children - 1 }) (get table i)
          else if id == i
          then none
          else get table i)
  get-closed table id parent i h =
      get-change (put table id none) parent i (λ p. record p { children = p.children - 1 })
      ∙ rw (get-put table id i none) (ground (arith, h))

  Chain-closed :
      (table : List (Option (Open P))) (id parent bound : ℕ) (links : List Link)
      → parent < id
      → id < bound
      → Above parent links
      → Chain table id 1 links
      → Chain (closed table id parent) bound 0 links
  Chain-closed table id parent bound [] over below above c = tt
  Chain-closed table id parent bound ((pid, used) ∷ links) over below above
        (p, at, keys, counted, under, over', above', rest) =
      (
        record p { children = p.children - 1 },
        get-closed table id parent pid over ∙ ground (arith, at, above),
        keys,
        omega (arith, counted),
        omega arith,
        over',
        above',
        Chain-same table (closed table id parent) pid pid 1 links (omega arith)
            (λ i l. get-closed table id parent i over ∙ ground (arith, l, above, under)) rest,
      )

  pub finish-Held :
      (t : Tree P) (id : ℕ) (used : List Text) (links : List Link) (e : Ending P)
      → Held t ((id, used) ∷ links)
      → (t' : Tree P) × (finish t id e ≡ ok t') × Held t' links
  unfolding finish
  finish-Held t id used links e (o, at, keys, counted, below, over, above, rest) = (
    record {
      next = t.next;
      open_nodes = closed t.open_nodes id o.parent;
      outbox = t.outbox ++ closing_events id o e;
    },
    ground (arith, at, counted),
    Chain-closed t.open_nodes id o.parent t.next links over below above rest,
  )
