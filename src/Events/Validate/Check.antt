-- ===== src/Events/Validate/Check.antt =====
-- The handlers of the validator of crates/events/src/validate.rs, one function for each.
use mix.Base.{
  ℕ, ◌+◌, List, [], ◌∷◌, ◌++◌, Option, none, some, Bool, true, false, not, ◌&&◌, ◌||◌,
  if◌then◌else◌, ◌==◌, nat_eq, text_eq, contains, filter, find, map, length, get_elem?, set, xor,
  leb, Text, is_some,
}
use mix.Events.Validate.Nodes.{NodeMap, lookup, adjust}
use mix.Events.Message.{
  decoded, Status, NotRunReason, Kind, NodeStarted, NodeFinished, NotRun, Event, Envelope, root,
}
use mix.Events.Validate.State.{
  Checked, refuse, Outcome, Entry, shape_of, accepts, Record, Validator, new, is_step,
  is_unspecified, is_cancelled, has_cause, is_reasonless, is_blocked, is_empty, mismatched,
  is_root_start, or_refuse, child_path, insert_id, ◌>>=◌, ◌>>◌, seq_gap, request_changed,
  first_not_root, after_root, zero_id, duplicate_id, unknown_parent, parent_finished, unknown_node,
  finished_twice, children_open, duplicate_key, planned_missing, not_open, rollback_target,
  unspecified_status, unspecified_reason, blocker_mismatch, cancellation_mismatch, result_mismatch,
  exit_code_on_child, truncated, ok, err, running,
}

-- A child claims its key under its parent: what it is called, and the nodes with the parent changed.
unfoldable pub claim_child : Validator → (id parent : ℕ) → Text → Checked (Text × NodeMap Record)
claim_child v id parent_id key =
    or_refuse (lookup parent_id v.nodes) (unknown_parent id parent_id) >>= λ parent.
    refuse parent.finished (parent_finished id parent_id)
    >> refuse (contains parent.keys key) (duplicate_key parent_id key)
    >> ok (
      child_path v.entries parent key,
      adjust parent_id
          (λ r. record r { keys = key ∷ r.keys; open_children = insert_id id r.open_children })
          v.nodes,
    )

-- A rollback names a finished step beside it.
abbrev pub valid_target : NodeMap Record → ℕ → ℕ → Bool
valid_target nodes undoes parent = elim (lookup undoes nodes) [
  | none ↦ false
  | some target ↦ is_step target.shape && target.finished && target.parent == parent
]

abbrev pub checked_kind : {P : Type 0} → NodeMap Record → NodeStarted P → Checked (Unit {0})
checked_kind nodes node = elim node.kind [
  | some (Kind.rollback undoes) ↦
      refuse (not (valid_target nodes undoes node.parent)) (rollback_target node.id undoes)
  | _ ↦ ok tt
]

abbrev pub opened_record : {P : Type 0} → NodeStarted P → ℕ → Record
opened_record node entry = record {
  parent = node.parent;
  entry = entry;
  shape = shape_of node.kind;
  planned = node.planned;
  keys = [];
  open_children = [];
  finished = false;
}

unfoldable pub started : {P : Type 0} → Validator → NodeStarted P → Checked Validator
unfolding claim_child
started v node = do
  refuse (node.id == 0) zero_id
  refuse (is_some (lookup node.id v.nodes)) (duplicate_id node.id)
  placed ←
      if node.id == root && node.parent == 0
      then ok (node.key, v.nodes)
      else claim_child v node.id node.parent node.key
  checked_kind placed.1 node
  ok (record v {
    entries = v.entries ++ record { id = some node.id; path = placed.0; outcome = running } ∷ [];
    nodes = (node.id, opened_record node (length v.entries)) ∷ placed.1;
  })

-- `iter().min()`.
abbrev pub smallest : List ℕ → Option ℕ
smallest [] = none
smallest (x ∷ xs) = elim (smallest xs) [ none ↦ some x | some m ↦ some (if leb x m then x else m) ]

abbrev pub none_open : ℕ → Option ℕ → Checked (Unit {0})
none_open id none = ok tt
none_open id (some child) = err (children_open id child)

abbrev pub all_planned : ℕ → Option Text → Checked (Unit {0})
all_planned id none = ok tt
all_planned id (some key) = err (planned_missing id key)

abbrev pub set_outcome : List Entry → ℕ → Outcome → List Entry
set_outcome entries i outcome = elim (get_elem? entries i) [
  | none ↦ entries
  | some e ↦ set entries i (record e { outcome = outcome })
]

unfoldable pub finish_node : {P : Type 0} → Validator → NodeFinished P → Checked Validator
unfolding accepts
finish_node v node = do
  let id = node.id
  record' ← or_refuse (lookup id v.nodes) (unknown_node id)
  refuse record'.finished (finished_twice id)
  none_open id (smallest record'.open_children)
  all_planned id (find (λ key. not (contains record'.keys key)) record'.planned)
  let status = decoded Status.unspecified node.status
  refuse (is_unspecified status) (unspecified_status id)
  refuse (xor (is_cancelled status) (has_cause node.cancellation)) (cancellation_mismatch id)
  refuse (mismatched record'.shape node.result) (result_mismatch id)
  refuse (not (id == root) && not (node.exit_code == 0)) (exit_code_on_child id)
  ok (record v {
    nodes =
        adjust record'.parent
          (λ r. record r { open_children = filter (λ c. not (c == id)) r.open_children })
          (adjust id (λ r. record r { finished = true }) v.nodes);
    entries = set_outcome v.entries record'.entry (Outcome.finished status);
    root_finished = v.root_finished || id == root;
  })

unfoldable pub child_not_run : Validator → NotRun → Checked Validator
child_not_run v n = do
  parent ← or_refuse (lookup n.parent v.nodes) (not_open n.parent)
  refuse parent.finished (not_open n.parent)
  refuse (contains parent.keys n.key) (duplicate_key n.parent n.key)
  let reason = decoded NotRunReason.unspecified n.reason
  refuse (is_reasonless reason) (unspecified_reason n.parent n.key)
  refuse (not (xor (is_blocked reason) (is_empty n.blocked_by))) (blocker_mismatch n.parent n.key)
  ok (record v {
    nodes = adjust n.parent (λ r. record r { keys = n.key ∷ r.keys }) v.nodes;
    entries =
        v.entries
        ++ record {
          id = none;
          path = child_path v.entries parent n.key;
          outcome = Outcome.not_run reason;
        }
          ∷ [];
  })

-- `open`: the event refers to a node that runs.
unfoldable pub running_node : Validator → ℕ → Checked Validator
running_node v id = do
  found ← or_refuse (lookup id v.nodes) (not_open id)
  refuse found.finished (not_open id)
  ok v

unfoldable pub push_event : {P : Type 0} → Validator → Event P → Checked Validator
unfolding started finish_node child_not_run running_node
push_event v (Event.node_started node) = started v node
push_event v (Event.node_finished node) = finish_node v node
push_event v (Event.not_run n) = child_not_run v n
push_event v (Event.node_progress id _) = running_node v id
push_event v (Event.diagnostic d) = running_node v d.node

abbrev pub same_request : Option Text → Text → Bool
same_request none request = true
same_request (some r) request = r == request

abbrev pub no_nodes : NodeMap Record → Bool
no_nodes [] = true
no_nodes _ = false

unfoldable pub push : {P : Type 0} → Validator → Envelope P → Checked Validator
unfolding push_event
push v envelope = do
  let seq = envelope.seq
  refuse (not (seq == v.next_seq)) (seq_gap v.next_seq seq)
  refuse (not (same_request v.request envelope.request)) (request_changed seq)
  refuse v.root_finished (after_root seq)
  let v' = record v { next_seq = v.next_seq + 1; request = some envelope.request }
  elim envelope.event [
    | none ↦ ok v'
    | some event ↦ do
      refuse (no_nodes v.nodes && not (is_root_start event)) (first_not_root seq)
      push_event v' event
  ]

-- `sort_unstable` on numbers, by insertion.
abbrev insert_sorted : ℕ → List ℕ → List ℕ
insert_sorted x [] = x ∷ []
insert_sorted x (y ∷ ys) = if leb x y then x ∷ y ∷ ys else y ∷ insert_sorted x ys

abbrev sort : List ℕ → List ℕ
sort [] = []
sort (x ∷ xs) = insert_sorted x (sort xs)

unfoldable pub finish : Validator → Checked (List Entry)
finish v =
    if v.root_finished
    then ok v.entries
    else err (truncated (sort (map (λ n. n.0) (filter (λ n. not n.1.finished) v.nodes))))

unfoldable pub push_all : {P : Type 0} → Validator → List (Envelope P) → Checked Validator
unfolding push
push_all v [] = ok v
push_all v (envelope ∷ rest) = elim (push v envelope) [ ok v' ↦ push_all v' rest | err e ↦ err e ]

unfoldable pub validate : {P : Type 0} → List (Envelope P) → Checked (List Entry)
unfolding push_all finish
validate envelopes = push_all new envelopes >>= finish
