-- ===== src/Events/Outbox/Serving.antt =====
-- The outbox between the pushes of the tree and the calls of `next` of a consumer, in any order.
use mathlib.Core.Path.{subst}
use mix.Base.{
  any-append, any, ℕ, zero, suc, ◌+◌, ◌<◌, List, [], ◌∷◌, ◌++◌, Option, none, some, true, not, ◌≡◌,
  refl, sym, ap, ◌∙◌, arith, ◌==◌, nat_eq, contains, filter, length, Bool-cases, inl, inr, Text,
  append_assoc,
}
use mix.Events.Message.{Event, Envelope}
use mix.Events.Validate.Stream.{numbered, envelope}
use mix.Events.Outbox.{
  Slot, slot_eq, slot, Queue, empty, push, released, next_from, pop, drain_rounds, drain,
}
use mix.Events.Outbox.Marks.{has_slot}
use mix.Events.Outbox.Drain.{contains-other}
use mix.Events.Outbox.Sound.{Sound, Sound-weaken, Sound-push, released-earlier}

-- A push of the tree, or a call of `next`.
pub data Move (P : Type 0) : Type 0 where
  pushed : Event P → Move P
  asked : Move P

module _ {P : Type 0} where
  -- The events that were pushed.
  abbrev pub pushes : List (Move P) → List (Event P)
  pushes [] = []
  pushes (pushed event ∷ moves) = event ∷ pushes moves
  pushes (asked ∷ moves) = pushes moves

  abbrev pub followed : Option (Envelope P) → List (Envelope P) → List (Envelope P)
  followed none out = out
  followed (some e) out = e ∷ out

  -- What the consumer gets, and the queue behind.
  unfoldable pub serve : Text → Queue P → List (Move P) → List (Envelope P) × Queue P
  serve request q [] = ([], q)
  serve request q (pushed event ∷ moves) = serve request (push q event) moves
  serve request q (asked ∷ moves) =
      let (found, q') = pop request q in
      let (out, q'') = serve request q' moves in (followed found out, q'')

  -- The second list is the first without some snapshots, each of which a later one of the same gauge
  -- and node supersedes.
  pub data Thinned : List (Event P) → List (Event P) → Type 0 where
    nil : Thinned [] []
    kept :
        {events fewer : List (Event P)}
        → (event : Event P) → Thinned events fewer
        → Thinned (event ∷ events) (event ∷ fewer)
    left_out :
        {events fewer : List (Event P)}
        → (event : Event P) → (s : Slot) → slot event ≡ some s
        → any (has_slot s) events ≡ true
        → Thinned events fewer
        → Thinned (event ∷ events) fewer

  -- What `next` does to a sound queue: it leaves out snapshots, and hands out the event behind them.
  data Served (request : Text) (seq : ℕ) (items : List (Event P))
      : Option (Envelope P) × Queue P → Type 0 where
    nothing :
        (q : Queue P)
        → q.items ≡ []
        → q.seq ≡ seq
        → Sound q.head q.items q.pending q.superseded
        → ((rest fewer : List (Event P)) → Thinned rest fewer → Thinned (items ++ rest) fewer)
        → Served request seq items (none, q)
    found :
        (event : Event P) (q : Queue P)
        → q.seq ≡ seq + 1
        → length q.items < length items
        → Sound q.head q.items q.pending q.superseded
        → ((rest fewer : List (Event P))
            → Thinned (q.items ++ rest) fewer
            → Thinned (items ++ rest) (event ∷ fewer))
        → Served request seq items (some (envelope request (seq + 1) event), q)

  any-later :
      (items : List (Event P)) (s : Slot) (rest : List (Event P))
      → any (has_slot s) items ≡ true
      → any (has_slot s) (items ++ rest) ≡ true
  any-later items s rest later = any-append (has_slot s) items rest ∙ ground (arith, later)

  skipped :
      (request : Text) (seq : ℕ) (event : Event P) (items : List (Event P)) (s : Slot)
      (r : Option (Envelope P) × Queue P)
      → slot event ≡ some s
      → any (has_slot s) items ≡ true
      → Served request seq items r
      → Served request seq (event ∷ items) r
  skipped request seq event items s _ is later (nothing q none' same sound thin) =
      nothing q none' same sound
        (λ rest fewer h. left_out event s is (any-later items s rest later) (thin rest fewer h))
  skipped request seq event items s _ is later (found e q same shorter sound thin) =
      found e q same (omega (arith, shorter)) sound
        (λ rest fewer h. left_out event s is (any-later items s rest later) (thin rest fewer h))

  next_from-Served :
      (request : Text) (items : List (Event P)) (q : Queue P)
      → Sound q.head items q.pending q.superseded
      → Served request q.seq items (next_from request items q)
  unfolding next_from
  next_from-Served request [] q sound = nothing _ refl refl sound (λ rest fewer h. h)
  next_from-Served request (event ∷ items) q (marked, pending, rest) =
      elim (Bool-cases (contains q.superseded q.head)) [
        | inl yes' ↦
            let (s, is, later') = marked yes' in
            let later = filter (λ k. not (k == q.head)) q.superseded in
            let q' = record q { head = q.head + 1; superseded = later } in
            let sound : Sound (q.head + 1) items q.pending later =
              Sound-weaken (q.head + 1) items q.pending q.pending q.superseded later
                (λ k h c. sym (contains-other q.superseded q.head k (omega (arith, h))) ∙ c)
                (λ s k e. e) rest in
            rw yes' (
              skipped request q.seq event items s (next_from request items q') is later'
                (next_from-Served request items q' sound))
        | inr no' ↦ rw no' (
            found event _ refl (omega arith)
              (Sound-weaken (q.head + 1) items q.pending (released q.head event q.pending)
                q.superseded q.superseded (λ k h c. c) (released-earlier q.head event q.pending)
                rest)
              (λ rest fewer h. kept event h))
      ]

  -- Envelopes that number what is left of some events without some snapshots.
  abbrev Numbers : Text → ℕ → List (Event P) → List (Envelope P) → Type 0
  Numbers request seq events out =
      (fewer : List (Event P)) × Thinned events fewer × (out ≡ numbered request (seq + 1) fewer)

  served-Numbers :
      (request : Text) (seq : ℕ) (items rest : List (Event P)) (r : Option (Envelope P) × Queue P)
      (out : List (Envelope P))
      → Served request seq items r
      → Numbers request r.1.seq (r.1.items ++ rest) out
      → Numbers request seq (items ++ rest) (followed r.0 out)
  unfolding numbered
  served-Numbers request seq items rest _ out (nothing q none' same sound thin)
        (fewer, thinned, is) =
      let thinned' : Thinned rest fewer = subst (λ l. Thinned (l ++ rest) fewer) none' thinned in
      (fewer, thin rest fewer thinned', is ∙ ap (λ n. numbered request (n + 1) fewer) same)
  served-Numbers request seq items rest _ out (found event q same shorter sound thin)
        (fewer, thinned, is) =
      (
        event ∷ fewer,
        thin rest fewer thinned,
        ap (λ l. envelope request (seq + 1) event ∷ l)
            (is ∙ ap (λ n. numbered request (n + 1) fewer) same),
      )

  drain_rounds-Numbers :
      (request : Text) (rounds : ℕ) (q : Queue P)
      → length q.items < rounds
      → Sound q.head q.items q.pending q.superseded
      → Numbers request q.seq (q.items ++ []) (drain_rounds rounds request q).0
  unfolding drain_rounds pop numbered
  drain_rounds-Numbers request zero q b sound = elim b [ ]
  drain_rounds-Numbers request (suc rounds) q b sound =
      drained (next_from request q.items q) (next_from-Served request q.items q sound)
        (drain_rounds-Numbers request rounds)
    where
      drained :
          (r : Option (Envelope P) × Queue P)
          → Served request q.seq q.items r
          → ((q' : Queue P)
              → length q'.items < rounds
              → Sound q'.head q'.items q'.pending q'.superseded
              → Numbers request q'.seq (q'.items ++ []) (drain_rounds rounds request q').0)
          → Numbers request q.seq
              (q.items ++ [])
              (elim r.0 as (λ _. List (Envelope P) × Queue P) [
                | none ↦ ([], r.1)
                | some e ↦
                    (e ∷ (drain_rounds rounds request r.1).0, (drain_rounds rounds request r.1).1)
              ]).0
      drained _ (nothing q' none' same sound' thin) ih = ([], thin [] [] nil, refl)
      drained _ (found event q' same shorter sound' thin) ih =
          served-Numbers request q.seq q.items [] _ _ (found event q' same shorter sound' thin)
            (ih q' (omega (arith, b, shorter)) sound')

  -- What a consumer gets by its calls of `next`, in whatever order they come between the pushes, and by
  -- draining the queue at the end.
  unfoldable pub received : Text → List (Move P) → List (Envelope P)
  unfolding serve
  received request moves = let (out, q) = serve request empty moves in out ++ (drain request q).0

  serve-Numbers :
      (request : Text) (moves : List (Move P)) (q : Queue P)
      → Sound q.head q.items q.pending q.superseded
      → Numbers request q.seq
          (q.items ++ pushes moves)
          ((serve request q moves).0 ++ (drain request (serve request q moves).1).0)
  unfolding serve drain push pop
  serve-Numbers request [] q sound =
      drain_rounds-Numbers request (length q.items + 1) q (omega arith) sound
  serve-Numbers request (pushed event ∷ moves) q sound =
      subst
        (λ l. Numbers request q.seq l (
          (serve request (push q event) moves).0
          ++ (drain request (serve request (push q event) moves).1).0))
        (append_assoc q.items (event ∷ []) (pushes moves))
        (serve-Numbers request moves (push q event) (
          Sound-push q.head (q.head + length q.items) q.items event q.pending q.superseded refl
            sound))
  serve-Numbers request (asked ∷ moves) q sound =
      answered (next_from request q.items q) (next_from-Served request q.items q sound)
        (serve-Numbers request moves)
    where
      answered :
          (r : Option (Envelope P) × Queue P)
          → Served request q.seq q.items r
          → ((q' : Queue P)
              → Sound q'.head q'.items q'.pending q'.superseded
              → Numbers request q'.seq
                  (q'.items ++ pushes moves)
                  ((serve request q' moves).0 ++ (drain request (serve request q' moves).1).0))
          → Numbers request q.seq (q.items ++ pushes moves) (
              followed r.0 (serve request r.1 moves).0
              ++ (drain request (serve request r.1 moves).1).0)
      answered _ (nothing q' none' same sound' thin) ih =
          served-Numbers request q.seq q.items (pushes moves) _ _
            (nothing q' none' same sound' thin) (ih q' sound')
      answered _ (found event q' same shorter sound' thin) ih =
          served-Numbers request q.seq q.items (pushes moves) _ _
            (found event q' same shorter sound' thin) (ih q' sound')

  -- However the calls of `next` come between the pushes into an empty outbox, if it is drained at the
  -- end, the consumer gets the events in order, numbered from one without a gap, and only snapshots are
  -- left out that a later one of the same gauge and node supersedes.
  pub received-Thinned :
      (request : Text) (moves : List (Move P))
      → (fewer : List (Event P)) × Thinned (pushes moves) fewer
        × (received request moves ≡ numbered request 1 fewer)
  unfolding received
  received-Thinned request moves = serve-Numbers request moves empty ((λ k h. refl), (λ s k e. cc))
