-- ===== src/Events/Outbox.antt =====
-- crates/events/src/outbox.rs: the queue between the tree and the consumer of its events, in which a
-- later snapshot of a node's gauge supersedes an earlier one. The mutex is the order of the calls,
-- the wake-up is not modelled; the hash map and the hash set are lists.
pub mod Slots
pub mod Marks
pub mod Drain
pub mod Sound
pub mod Serving
pub mod Reading
use mix.Base.{
  ℕ, zero, suc, ◌+◌, List, [], ◌∷◌, ◌++◌, Option, none, some, Bool, true, false, not, ◌&&◌,
  if◌then◌else◌, ◌==◌, nat_eq, Eq, derived, contains, filter, length, Text, ℕ_discrete,
}
use mix.Events.Message.{Progress, Event, Envelope}

pub data Gauge : Type 0 where
  bytes builds : Gauge

abbrev pub Slot : Type 0
Slot = ℕ × Gauge

unfoldable pub Slot-discrete : Discrete Slot
Slot-discrete = hlevel ℕ_discrete

instance abbrev pub slot_eq : Eq Slot
slot_eq = derived Slot-discrete

abbrev pub Pending : Type 0
Pending = List (Slot × ℕ)

abbrev pub lookup_slot : Slot → Pending → Option ℕ
lookup_slot s [] = none
lookup_slot s ((s', k) ∷ pending) = if s' == s then some k else lookup_slot s pending

abbrev pub remove_slot : Slot → Pending → Pending
remove_slot s = filter (λ e. not (e.0 == s))

abbrev pub insert_slot : Slot → ℕ → Pending → Pending
insert_slot s k pending = (s, k) ∷ remove_slot s pending

pub record Queue (P : Type 0) : Type 0 where
  pub head : ℕ
  pub seq : ℕ
  pub items : List (Event P)
  pub pending : Pending
  pub superseded : List ℕ

abbrev pub pend_at : ℕ → Option Slot → Pending → Pending
pend_at position none pending = pending
pend_at position (some s) pending = insert_slot s position pending

abbrev pub supersede_at : Option Slot → Pending → List ℕ → List ℕ
supersede_at none pending superseded = superseded
supersede_at (some s) pending superseded = elim (lookup_slot s pending) [
  | none ↦ superseded
  | some k ↦ k ∷ superseded
]

module _ {P : Type 0} where
  unfoldable pub slot : Event P → Option Slot
  slot (Event.node_progress id (some (Progress.bytes _))) = some (id, Gauge.bytes)
  slot (Event.node_progress id (some (Progress.builds _))) = some (id, Gauge.builds)
  slot _ = none

  abbrev pub empty : Queue P
  empty = record { head = 0; seq = 0; items = []; pending = []; superseded = [] }

  -- `pending.insert(slot, position)`, and what it returns goes to `superseded`.
  abbrev pub pend : ℕ → Event P → Pending → Pending
  pend position event pending = pend_at position (slot event) pending

  abbrev pub supersede : Event P → Pending → List ℕ → List ℕ
  supersede event pending superseded = supersede_at (slot event) pending superseded

  unfoldable pub push : Queue P → Event P → Queue P
  push q event = record q {
    items = q.items ++ event ∷ [];
    pending = pend (q.head + length q.items) event q.pending;
    superseded = supersede event q.pending q.superseded;
  }

  -- What is pending once the event at a position is handed out.
  abbrev pub released : ℕ → Event P → Pending → Pending
  released position event pending = elim (slot event) [
    | none ↦ pending
    | some s ↦ elim (lookup_slot s pending) [
      | none ↦ pending
      | some k ↦ if k == position then remove_slot s pending else pending
    ]
  ]

  -- The loop of `Outbox::next`, on the items.
  unfoldable pub next_from : Text → List (Event P) → Queue P → Option (Envelope P) × Queue P
  next_from request [] q = (none, record q { items = [] })
  next_from request (event ∷ items) q =
      let skipped = next_from request items (record q {
        head = q.head + 1;
        superseded = filter (λ k. not (k == q.head)) q.superseded;
      }) in
      if contains q.superseded q.head then skipped else (
        some (record { seq = q.seq + 1; request = request; event = some event }),
        record q {
          head = q.head + 1;
          seq = q.seq + 1;
          items = items;
          pending = released q.head event q.pending;
        },
      )

  unfoldable pub pop : Text → Queue P → Option (Envelope P) × Queue P
  pop request q = next_from request q.items q

  -- Every round but the last takes an item, so a round more than there are items is enough.
  unfoldable pub drain_rounds : ℕ → Text → Queue P → List (Envelope P) × Queue P
  drain_rounds zero request q = ([], q)
  drain_rounds (suc rounds) request q =
      let (envelope, q') = pop request q in
      let (drained, q'') = drain_rounds rounds request q' in
      elim envelope [ none ↦ ([], q') | some e ↦ (e ∷ drained, q'') ]

  unfoldable pub drain : Text → Queue P → List (Envelope P) × Queue P
  drain request q = drain_rounds (length q.items + 1) request q

  unfoldable pub push_events : Queue P → List (Event P) → Queue P
  push_events q [] = q
  push_events q (event ∷ events) = push_events (push q event) events
