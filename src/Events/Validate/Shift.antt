-- ===== src/Events/Validate/Shift.antt =====
-- The validator's handlers do not look at the sequence number, and a report of a running node
-- changes nothing but that.
use mix.Base.{ℕ, ◌+◌, Option, some, ◌≡◌, arith, nat_eq, text_eq, Text, ==_refl}
use mix.Events.Message.{NodeStarted, NodeFinished, NotRun, Event, Progress}
use mix.Events.Validate.State.{Validator, Checked, ok, err}
use mix.Events.Validate.Check.{
  started, claim_child, finish_node, child_not_run, running_node, push_event,
}
use mix.Events.Validate.Check.{push}
use mix.Events.Validate.Stream.{envelope, advanced}

abbrev pub at_seq : ℕ → Validator → Validator
at_seq n v = record v { next_seq = n }

abbrev pub shifted : ℕ → Checked Validator → Checked Validator
shifted n (ok v) = ok (at_seq n v)
shifted n (err e) = err e

module _ (n : ℕ) (v : Validator) where
  shifted-running_node : (id : ℕ) → running_node (at_seq n v) id ≡ shifted n (running_node v id)
  unfolding running_node
  shifted-running_node id = ground arith

  shifted-child_not_run :
      (r : NotRun) → child_not_run (at_seq n v) r ≡ shifted n (child_not_run v r)
  unfolding child_not_run
  shifted-child_not_run r = ground arith

  shifted-finish_node :
      {P : Type 0} (f : NodeFinished P) → finish_node (at_seq n v) f ≡ shifted n (finish_node v f)
  unfolding finish_node
  shifted-finish_node f = ground arith

  shifted-started :
      {P : Type 0} (s : NodeStarted P) → started (at_seq n v) s ≡ shifted n (started v s)
  unfolding started claim_child
  shifted-started s = ground arith

  shifted-push_event :
      {P : Type 0} (e : Event P) → push_event (at_seq n v) e ≡ shifted n (push_event v e)
  unfolding push_event
  shifted-push_event (Event.node_started node) = shifted-started node
  shifted-push_event (Event.node_finished node) = shifted-finish_node node
  shifted-push_event (Event.not_run r) = shifted-child_not_run r
  shifted-push_event (Event.node_progress id _) = shifted-running_node id
  shifted-push_event (Event.diagnostic d) = shifted-running_node d.node

module _ (v w : Validator) where
  request-running_node : (id : ℕ) → running_node v id ≡ ok w → w.request ≡ v.request
  unfolding running_node
  request-running_node id e = ground arith

  request-child_not_run : (r : NotRun) → child_not_run v r ≡ ok w → w.request ≡ v.request
  unfolding child_not_run
  request-child_not_run r e = ground arith

  request-finish_node :
      {P : Type 0} (f : NodeFinished P) → finish_node v f ≡ ok w → w.request ≡ v.request
  unfolding finish_node
  request-finish_node f e = ground arith

  request-started : {P : Type 0} (s : NodeStarted P) → started v s ≡ ok w → w.request ≡ v.request
  unfolding started claim_child
  request-started s e = ground arith

  request-push_event : {P : Type 0} (e : Event P) → push_event v e ≡ ok w → w.request ≡ v.request
  unfolding push_event
  request-push_event (Event.node_started node) e = request-started node e
  request-push_event (Event.node_finished node) e = request-finish_node node e
  request-push_event (Event.not_run r) e = request-child_not_run r e
  request-push_event (Event.node_progress id _) e = request-running_node id e
  request-push_event (Event.diagnostic d) e = request-running_node d.node e

  -- A push that went through is that of its event.
  pub push-taken :
      {P : Type 0} (request : Text) (e : Event P)
      → push v (envelope request v.next_seq e) ≡ ok w
      → push_event (advanced v request) e ≡ ok w
  unfolding push
  push-taken request e h = ground (arith, h, ==_refl v.next_seq)

pub request-push :
    {P : Type 0} (request : Text) (v w : Validator) (e : Event P)
    → push v (envelope request v.next_seq e) ≡ ok w
    → w.request ≡ some request
request-push request v w e h =
    request-push_event (advanced v request) w e (push-taken v w request e h)

-- A push that goes through does so under another number.
pub shifted-push :
    {P : Type 0} (request : Text) (n : ℕ) (v w : Validator) (e : Event P)
    → push v (envelope request v.next_seq e) ≡ ok w
    → push (at_seq n v) (envelope request n e) ≡ ok (at_seq (n + 1) w)
unfolding push
shifted-push request n v w e h =
    rw (==_refl n, shifted-push_event (n + 1) (advanced v request) e, push-taken v w request e h)
      (ground (arith, h, ==_refl v.next_seq))

-- What a report of progress leaves.
pub progress-taken :
    {P : Type 0} (v w : Validator) (id : ℕ) (p : Option (Progress P))
    → push_event v (Event.node_progress id p) ≡ ok w
    → w ≡ v
unfolding push_event running_node
progress-taken v w id p e = ground arith
