-- ===== src/Events/Outbox/Marks.antt =====
-- Which positions the pushes mark as superseded: those of snapshots that a later one replaces.
use mathlib.Core.Path.{subst}
use mix.Base.{
  ℕ, ◌+◌, ◌<◌, List, [], ◌∷◌, ◌++◌, Option, none, some, Bool, false, ◌||◌, if◌then◌else◌, ◌≡◌, refl,
  sym, ap, ◌∙◌, arith, nat_eq, contains, any, length, length-append, append_assoc, append-nil,
}
use mix.Events.Message.{Event}
use mix.Events.Outbox.{
  Slot, slot_eq, Pending, slot, Queue, empty, pend, supersede, push, push_events,
}
use mix.Events.Outbox.Slots.{
  names, Held, Below, Unmarked, let_go_at, matches, Held-pend, Held-fresh, Below-pend,
  Unmarked-supersede,
}

module _ {P : Type 0} where
  abbrev pub has_slot : Slot → Event P → Bool
  has_slot s event = names (slot event) s

  abbrev pub any_slot : Option Slot → List (Event P) → Bool
  any_slot none events = false
  any_slot (some s) events = any (has_slot s) events

  -- A later event reports the same gauge of the same node.
  abbrev pub overtaken : Event P → List (Event P) → Bool
  overtaken event events = any_slot (slot event) events

  -- The events that no later one supersedes, in order.
  abbrev pub latest : List (Event P) → List (Event P)
  latest [] = []
  latest (event ∷ events) =
      let rest = latest events in if overtaken event events then rest else event ∷ rest

  -- The positions from `position` on that are marked are those of overtaken events.
  abbrev pub Marked : ℕ → List (Event P) → List ℕ → Type 0
  Marked position [] xs = Unit
  Marked position (event ∷ events) xs =
      (contains xs position ≡ overtaken event events) × Marked (position + 1) events xs

  abbrev marks : ℕ → List (Event P) → Pending → List ℕ → List ℕ
  marks position [] p xs = xs
  marks position (event ∷ events) p xs =
      marks (position + 1) events (pend position event p) (supersede event p xs)

  any_slot-let_go_at :
      (h found : Option Slot) (events : List (Event P)) (marked : Bool)
      → ((matches h found || marked) || any_slot (let_go_at h found) events)
        ≡ (marked || (matches h found || any_slot h events))
  any_slot-let_go_at none none events marked = ground arith
  any_slot-let_go_at none (some s) events marked = ground arith
  any_slot-let_go_at (some r) none events marked = ground arith
  any_slot-let_go_at (some r) (some s) events marked =
      ground (arith, slot_eq.same_iff r s, slot_eq.same_iff s r)

  any_slot-cons :
      (h : Option Slot) (event : Event P) (events : List (Event P))
      → any_slot h (event ∷ events) ≡ (matches h (slot event) || any_slot h events)
  any_slot-cons none event events = refl
  any_slot-cons (some r) event events = refl

  contains-marks :
      (k position : ℕ) (events : List (Event P)) (p : Pending) (xs : List ℕ) (h : Option Slot)
      → k < position
      → Held p k h
      → contains (marks position events p xs) k ≡ (contains xs k || any_slot h events)
  contains-marks k position [] p xs none b held = ground arith
  contains-marks k position [] p xs (some h) b held = ground arith
  contains-marks k position (event ∷ events) p xs h b held =
      let (held', same) = Held-pend p k position h (slot event) xs b held in
      contains-marks k (position + 1) events (pend position event p) (supersede event p xs)
        (let_go_at h (slot event)) (omega arith) held'
      ∙ rw (same, any_slot-cons h event events)
          (any_slot-let_go_at h (slot event) events (contains xs k))

  Marked-marks :
      (position : ℕ) (events : List (Event P)) (p : Pending) (xs : List ℕ)
      → Below p position
      → Unmarked xs position
      → Marked position events (marks position events p xs)
  Marked-marks position [] p xs below u = tt
  Marked-marks position (event ∷ events) p xs below u =
      let u' = Unmarked-supersede (slot event) position p xs below u in
      (
        contains-marks position (position + 1) events (pend position event p) (supersede event p xs)
              (slot event) (omega arith) (Held-fresh (slot event) position p below)
            ∙ rw (u' position (omega arith)) refl,
        Marked-marks (position + 1) events (pend position event p) (supersede event p xs)
            (Below-pend (slot event) position p below) (λ k h. u' k (omega arith)),
      )

  push_events-marks :
      (q : Queue P) (events : List (Event P))
      → ((push_events q events).items ≡ q.items ++ events)
        × ((push_events q events).superseded
            ≡ marks (q.head + length q.items) events q.pending q.superseded)
        × ((push_events q events).head ≡ q.head)
        × ((push_events q events).seq ≡ q.seq)
  unfolding push_events push
  push_events-marks q [] = (sym (append-nil q.items), refl, refl, refl)
  push_events-marks q (event ∷ events) =
      let (items, superseded, head, seq) = push_events-marks (push q event) events in
      let longer : q.head + length (q.items ++ event ∷ []) ≡ q.head + length q.items + 1 =
        omega (arith, length-append q.items (event ∷ [])) in
      (
        items ∙ append_assoc q.items (event ∷ []) events,
        superseded
            ∙ ap
                (λ n.
                  marks n events (pend (q.head + length q.items) event q.pending)
                    (supersede event q.pending q.superseded))
                longer,
        head,
        seq,
      )

  -- Pushed into an empty queue, exactly the overtaken events are marked.
  pub Marked-push_events :
      (events : List (Event P))
      → ((push_events empty events).items ≡ events)
        × Marked 0 events (push_events empty events).superseded
        × ((push_events empty events).head ≡ 0)
        × ((push_events empty events).seq ≡ 0)
  Marked-push_events events =
      let (items, superseded, head, seq) = push_events-marks empty events in
      (
        items,
        subst (Marked 0 events) (sym superseded)
            (Marked-marks 0 events [] [] (λ s k e. cc) (λ k h. refl)),
        head,
        seq,
      )
