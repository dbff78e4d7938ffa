-- ===== src/Events/Tree/State.antt =====
-- `Tree` of crates/events/src/tree.rs with `start`, `not_run`, `blocked`, `progress`, `warn` and
-- `finish`. The outbox is the list of the events pushed, oldest first; the table of open nodes is
-- a list indexed by the id.
use mix.Base.{
  ℕ, zero, suc, ◌+◌, ◌-◌, List, [], ◌∷◌, ◌++◌, Option, none, some, Bool, true, false, not,
  if◌then◌else◌, Eq, ◌==◌, nat_eq, text_eq, contains, filter, map, get_elem?, ltb, Text, is_some,
}
use mix.Events.Message.{
  known, Status, Cancellation, NotRunReason, Severity, Kind, Result, Progress, Diagnostic, Event,
  root,
}

pub data Misuse : Type 0 where
  not_open : ℕ → Misuse
  children_open : ℕ → ℕ → Misuse
  duplicate_key : ℕ → Text → Misuse
  -- the `expect` of a counted child that is not there
  panicked : Misuse

pub data Used {ℓ} (A : Type ℓ) : Type ℓ where
  ok : A → Used A
  err : Misuse → Used A

pub record Start (P : Type 0) : Type 0 where
  pub key : Text
  pub kind : Kind P
  pub planned : List Text
  pub shielded : Bool

pub record Ending (P : Type 0) : Type 0 where
  pub status : Status
  pub cancellation : Cancellation
  pub diagnostic : Option (Diagnostic P)
  pub result : Option (Result P)
  pub exit_code : ℕ

abbrev pub ending : {P : Type 0} → Status → Ending P
ending status = record {
  status = status;
  cancellation = Cancellation.unspecified;
  diagnostic = none;
  result = none;
  exit_code = 0;
}

pub record Open (P : Type 0) : Type 0 where
  pub parent : ℕ
  pub planned : List Text
  pub used : List Text
  pub children : ℕ
  pub bytes : Option P
  pub builds : Option P

pub record Tree (P : Type 0) : Type 0 where
  pub next : ℕ
  pub open_nodes : List (Option (Open P))
  pub outbox : List (Event P)

module _ {P : Type 0} where
  abbrev pub flatten : Option (Option (Open P)) → Option (Open P)
  flatten none = none
  flatten (some o) = o

  abbrev pub get : List (Option (Open P)) → ℕ → Option (Open P)
  get table id = flatten (get_elem? table id)

  -- A write at `id`, the table resized where it is too short.
  abbrev pub put : List (Option (Open P)) → ℕ → Option (Open P) → List (Option (Open P))
  put [] zero o = o ∷ []
  put [] (suc i) o = none ∷ put [] i o
  put (x ∷ table) zero o = o ∷ table
  put (x ∷ table) (suc i) o = x ∷ put table i o

  -- A change through `get_mut`.
  abbrev pub change : List (Option (Open P)) → ℕ → (Open P → Open P) → List (Option (Open P))
  change table id f = elim (get table id) [ none ↦ table | some o ↦ put table id (some (f o)) ]

  abbrev pub claimed : List (Option (Open P)) → ℕ → Text → List (Option (Open P))
  claimed table parent key = change table parent (λ o. record o { used = key ∷ o.used })

  unfoldable pub claim : Tree P → ℕ → Text → Used (Tree P)
  claim t parent key = elim (get t.open_nodes parent) [
    | none ↦ err (not_open parent)
    | some o ↦
        if contains o.used key
        then err (duplicate_key parent key)
        else ok (record t { open_nodes = claimed t.open_nodes parent key })
  ]

  abbrev pub started_event : ℕ → ℕ → Start P → Event P
  started_event id parent s = Event.node_started (record {
    id = id;
    parent = parent;
    key = s.key;
    planned = s.planned;
    shielded = s.shielded;
    kind = some s.kind;
  })

  abbrev pub opened : ℕ → Start P → Open P
  opened parent s = record {
    parent = parent;
    planned = s.planned;
    used = [];
    children = 0;
    bytes = none;
    builds = none;
  }

  unfoldable pub open_node : Tree P → ℕ → Start P → Tree P
  open_node t parent s = record {
    next = t.next + 1;
    open_nodes =
        put (change t.open_nodes parent (λ o. record o { children = o.children + 1 })) t.next
          (some (opened parent s));
    outbox = t.outbox ++ started_event t.next parent s ∷ [];
  }

  unfoldable pub new_tree : Start P → Tree P
  unfolding open_node
  new_tree s = open_node (record { next = root; open_nodes = []; outbox = [] }) 0 s

  -- The new node's id is `next` before the call.
  unfoldable pub start : Tree P → ℕ → Start P → Used (Tree P)
  unfolding claim open_node
  start t parent s = elim (claim t parent s.key) [
    | ok t' ↦ ok (open_node t' parent s)
    | err e ↦ err e
  ]

  abbrev pub not_run_event : ℕ → NotRunReason → Text → Text → Event P
  not_run_event parent reason by key =
      Event.not_run (record { parent = parent; key = key; reason = known reason; blocked_by = by })

  abbrev pub emit : Tree P → List (Event P) → Tree P
  emit t events = record t { outbox = t.outbox ++ events }

  unfoldable pub not_run : Tree P → ℕ → Text → NotRunReason → Used (Tree P)
  unfolding claim
  not_run t parent key reason = elim (claim t parent key) [
    | ok t' ↦ ok (emit t' (not_run_event parent reason [] key ∷ []))
    | err e ↦ err e
  ]

  unfoldable pub blocked : Tree P → ℕ → Text → Text → Used (Tree P)
  unfolding claim
  blocked t parent key by = elim (claim t parent key) [
    | ok t' ↦ ok (emit t' (not_run_event parent NotRunReason.blocked by key ∷ []))
    | err e ↦ err e
  ]

  unfoldable pub warn : Tree P → ℕ → Diagnostic P → Used (Tree P)
  warn t id d =
      if is_some (get t.open_nodes id)
      then ok (emit t (Event.diagnostic (record d { node = id; severity = Severity.warning }) ∷ []))
      else err (not_open id)

  -- The lowest id of an open node under `id`, where the table begins at `at`.
  abbrev pub first_child : ℕ → ℕ → List (Option (Open P)) → Option ℕ
  first_child id at [] = none
  first_child id at (none ∷ table) = first_child id (at + 1) table
  first_child id at (some o ∷ table) =
      if o.parent == id then some at else first_child id (at + 1) table

  abbrev pub unclaimed : Open P → List Text
  unclaimed o = filter (λ key. not (contains o.used key)) o.planned

  abbrev pub finished_event : ℕ → Ending P → Event P
  finished_event id e = Event.node_finished (record {
    id = id;
    status = known e.status;
    diagnostic = e.diagnostic;
    exit_code = e.exit_code;
    cancellation = known e.cancellation;
    result = e.result;
  })

  abbrev pub closing_events : ℕ → Open P → Ending P → List (Event P)
  closing_events id o e =
      map (not_run_event id NotRunReason.not_reached []) (unclaimed o) ++ finished_event id e ∷ []

  abbrev pub closed : List (Option (Open P)) → ℕ → ℕ → List (Option (Open P))
  closed table id parent =
      change (put table id none) parent (λ p. record p { children = p.children - 1 })

  unfoldable pub finish : Tree P → ℕ → Ending P → Used (Tree P)
  finish t id e = elim (get t.open_nodes id) [
    | none ↦ err (not_open id)
    | some o ↦
        if ltb 0 o.children
        then (elim (first_child id 0 t.open_nodes) [
          | none ↦ err panicked
          | some child ↦ err (children_open id child)
        ])
        else ok (record {
          next = t.next;
          open_nodes = closed t.open_nodes id o.parent;
          outbox = t.outbox ++ closing_events id o e;
        })
  ]

module _ {P : Type 0} ⦃eq : Eq P⦄ where
  abbrev same_gauge : Option P → P → Bool
  same_gauge none x = false
  same_gauge (some y) x = y == x

  -- `Open::changed`: the node with its gauges, and whether the report is news.
  unfoldable pub gauged : Open P → Progress P → Open P × Bool
  gauged o (Progress.builds b) = (record o { builds = some b }, not (same_gauge o.builds b))
  gauged o (Progress.bytes b) = (record o { bytes = some b }, not (same_gauge o.bytes b))
  gauged o _ = (o, true)

  unfoldable pub progress : Tree P → ℕ → Progress P → Used (Tree P)
  unfolding gauged
  progress t id p = elim (get t.open_nodes id) [
    | none ↦ err (not_open id)
    | some o ↦
        let (o', news) = gauged o p in
        let t' = record t { open_nodes = put t.open_nodes id (some o') } in
        ok (if news then emit t' (Event.node_progress id (some p) ∷ []) else t')
  ]
