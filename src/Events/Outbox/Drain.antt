-- ===== src/Events/Outbox/Drain.antt =====
-- What a drain hands out: the events that no later one supersedes, numbered without a gap.
use mathlib.Core.Path.{subst}
use mix.Base.{
  ℕ, zero, suc, ◌+◌, ◌≤◌, ◌<◌, List, [], ◌∷◌, Option, none, some, true, false, not, ◌≡◌, refl, sym,
  ap, ◌∙◌, arith, ◌==◌, nat_eq, contains, filter, length, Bool-cases, inl, inr, Text,
}
use mix.Events.Message.{Event, Envelope}
use mix.Events.Validate.Stream.{numbered, envelope}
use mix.Events.Outbox.{Queue, empty, next_from, pop, drain_rounds, drain, push_events}
use mix.Events.Outbox.Marks.{Marked, overtaken, latest, Marked-push_events}

pub contains-other :
    (xs : List ℕ) (h k : ℕ) → h < k → contains (filter (λ x. not (x == h)) xs) k ≡ contains xs k
contains-other [] h k b = refl
contains-other (x ∷ xs) h k b = ground (arith, contains-other xs h k b)

module _ {P : Type 0} where
  Marked-other :
      (h k : ℕ) (items : List (Event P)) (xs : List ℕ)
      → h < k
      → Marked k items xs
      → Marked k items (filter (λ x. not (x == h)) xs)
  Marked-other h k [] xs b m = tt
  Marked-other h k (event ∷ items) xs b m =
      (contains-other xs h k b ∙ m.0, Marked-other h (k + 1) items xs (omega arith) m.1)

  -- What `next` finds in a queue whose marks are right.
  data Found (request : Text) (seq rounds : ℕ)
      : List (Event P) → Option (Envelope P) × Queue P → Type 0 where
    nothing : (q : Queue P) → Found request seq rounds [] (none, q)
    found :
        (event : Event P) (q : Queue P)
        → q.seq ≡ seq + 1
        → length q.items < rounds
        → Marked q.head q.items q.superseded
        → Found request seq rounds
            (event ∷ latest q.items)
            (some (envelope request (seq + 1) event), q)

  next_from-Found :
      (request : Text) (rounds : ℕ) (items : List (Event P)) (q : Queue P)
      → length items ≤ rounds
      → Marked q.head items q.superseded
      → Found request q.seq rounds (latest items) (next_from request items q)
  unfolding next_from
  next_from-Found request rounds [] q b m = nothing _
  next_from-Found request rounds (event ∷ items) q b m = elim (Bool-cases (overtaken event items)) [
    | inl over ↦
        let marked : contains q.superseded q.head ≡ true = m.0 ∙ over in
        rw (over, marked)
          (next_from-Found request rounds items
            (record q {
              head = q.head + 1;
              superseded = filter (λ k. not (k == q.head)) q.superseded;
            })
            (omega arith) (Marked-other q.head (q.head + 1) items q.superseded (omega arith) m.1))
    | inr last ↦
        let clear : contains q.superseded q.head ≡ false = m.0 ∙ last in
        rw (last, clear) (found event _ refl (omega (arith, b)) m.1)
  ]

  drained :
      (request : Text) (rounds seq : ℕ) (events : List (Event P))
      (r : Option (Envelope P) × Queue P)
      → Found request seq rounds events r
      → ((q : Queue P)
          → length q.items < rounds
          → Marked q.head q.items q.superseded
          → (drain_rounds rounds request q).0 ≡ numbered request (q.seq + 1) (latest q.items))
      → (elim r.0 as (λ _. List (Envelope P) × Queue P) [
        | none ↦ ([], r.1)
        | some e ↦ (e ∷ (drain_rounds rounds request r.1).0, (drain_rounds rounds request r.1).1)
      ]).0
        ≡ numbered request (seq + 1) events
  unfolding numbered
  drained request rounds seq events r (nothing q) ih = refl
  drained request rounds seq events r (found event q s b m) ih =
      ap (λ l. envelope request (seq + 1) event ∷ l)
        (ih q b m ∙ ap (λ n. numbered request (n + 1) (latest q.items)) s)

  drain_rounds-numbered :
      (request : Text) (rounds : ℕ) (q : Queue P)
      → length q.items < rounds
      → Marked q.head q.items q.superseded
      → (drain_rounds rounds request q).0 ≡ numbered request (q.seq + 1) (latest q.items)
  unfolding drain_rounds pop
  drain_rounds-numbered request zero q b m = elim b [ ]
  drain_rounds-numbered request (suc rounds) q b m =
      drained request rounds q.seq (latest q.items) (pop request q)
        (next_from-Found request rounds q.items q (omega arith) m)
        (drain_rounds-numbered request rounds)

  -- The events that were pushed into an empty outbox are drained in order, numbered from one without
  -- a gap, and exactly the snapshots are left out that a later one of the same gauge and node
  -- supersedes.
  pub drain-push_events :
      (request : Text) (events : List (Event P))
      → (drain request (push_events empty events)).0 ≡ numbered request 1 (latest events)
  unfolding drain
  drain-push_events request events =
      let q = push_events empty events in
      let (items, marked, head, seq) = Marked-push_events events in
      drain_rounds-numbered request (length q.items + 1) q (omega arith) (
        subst (λ l. Marked q.head l q.superseded) (sym items)
          (subst (λ n. Marked n events q.superseded) (sym head) marked))
      ∙ rw (items, seq) refl
