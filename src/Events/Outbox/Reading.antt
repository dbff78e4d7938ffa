-- ===== src/Events/Outbox/Reading.antt =====
-- The reader accepts a session's events as the outbox hands them out, superseded snapshots left out.
use mathlib.Core.Path.{subst}
use mix.Base.{ℕ, ◌+◌, List, [], some, ◌≡◌, refl, sym, ap, ◌∙◌, arith, Text, Eq, not, is_some}
use mix.Events.Message.{Event, root}
use mix.Events.Validate.State.{Validator, ok, new}
use mix.Events.Validate.Check.{push, push_all, push_event, validate}
use mix.Events.Validate.Check as Check
use mix.Events.Validate.Stream.{Accepts, stop, next, envelope, advanced, Accepts-push_all}
use mix.Events.Validate.Shift.{at_seq, shifted-push, request-push, push-taken, progress-taken}
use mix.Events.Outbox.{Slot, slot}
use mix.Events.Outbox.Serving.{
  Move, pushes, Thinned, nil, kept, left_out, received, received-Thinned,
}
use mix.Events.Tree.State.{Tree, get}
use mix.Events.Tree.Session.{Session, Session-Accepts, is_valid}

module _ {P : Type 0} (request : Text) where
  snapshot-taken :
      (v w : Validator) (e : Event P) (s : Slot) → slot e ≡ some s → push_event v e ≡ ok w → w ≡ v
  unfolding slot
  snapshot-taken v w (Event.node_progress id p) s h taken = progress-taken v w id p taken
  snapshot-taken v w (Event.node_started _) s h taken = cc
  snapshot-taken v w (Event.node_finished _) s h taken = cc
  snapshot-taken v w (Event.not_run _) s h taken = cc
  snapshot-taken v w (Event.diagnostic _) s h taken = cc

  Accepts-Thinned :
      {v u : Validator} {events fewer : List (Event P)} (n : ℕ)
      → v.request ≡ some request
      → Thinned events fewer
      → Accepts request v events u
      → (m : ℕ) × Accepts request (at_seq n v) fewer (at_seq m u)
  Accepts-Thinned n asked nil (stop v) = (n, stop (at_seq n v))
  Accepts-Thinned n asked (kept event thinned) (next {v = v} {w = w} p q rest) =
      let (m, accepted) =
        Accepts-Thinned {v = w} (n + 1) (request-push request v w event p) thinned rest in
      (m, next (shifted-push request n v w event p) refl accepted)
  Accepts-Thinned {fewer = fewer} n asked (left_out event s is later thinned)
        (next {v = v} {w = w} {u = u} p q rest) =
      let same : w ≡ advanced v request =
        snapshot-taken (advanced v request) w event s is (push-taken v w request event p) in
      let back : at_seq n w ≡ at_seq n v =
        ap (at_seq n) same ∙ ap (λ r. record v { next_seq = n; request = r }) (sym asked) in
      let (m, accepted) =
        Accepts-Thinned {v = w} n (request-push request v w event p) thinned rest in
      (m, subst (λ x. Accepts request x fewer (at_seq m u)) back accepted)

  snapshot-first :
      (w : Validator) (e : Event P) (s : Slot)
      → slot e ≡ some s
      → push new (envelope request 1 e) ≡ ok w
      → ⊥
  unfolding slot push
  snapshot-first w (Event.node_progress id p) s h taken = cc
  snapshot-first w (Event.node_started _) s h taken = cc
  snapshot-first w (Event.node_finished _) s h taken = cc
  snapshot-first w (Event.not_run _) s h taken = cc
  snapshot-first w (Event.diagnostic _) s h taken = cc

  first-Thinned :
      {v u : Validator} {events fewer : List (Event P)}
      → v ≡ new
      → Thinned events fewer
      → Accepts request v events u
      → (m : ℕ) × Accepts request new fewer (at_seq m u)
  first-Thinned begin nil (stop v) =
      (1, subst (λ x. Accepts {P = P} request new [] (at_seq 1 x)) (sym begin) (stop new))
  first-Thinned begin (kept event thinned) (next {v = v} {w = w} p q rest) =
      let p' : push new (envelope request 1 event) ≡ ok w =
        subst (λ x. push x (envelope request x.next_seq event) ≡ ok w) begin p in
      let (m, accepted) = Accepts-Thinned 2 (request-push request v w event p) thinned rest in
      (m, next (shifted-push request 1 new w event p') refl accepted)
  first-Thinned begin (left_out event s is later thinned) (next {v = v} {w = w} p q rest) =
      let p' : push new (envelope request 1 event) ≡ ok w =
        subst (λ x. push x (envelope request x.next_seq event) ≡ ok w) begin p in
      absurd (snapshot-first w event s is p')

module _ {P : Type 0} ⦃eq : Eq P⦄ (request : Text) where
  -- In a session of proper calls the reader takes the events as a consumer gets them from the outbox,
  -- in whatever order the calls of `next` come between the pushes of the session, if the outbox is
  -- drained at the end; it finds the stream valid exactly if the root is closed.
  pub validate-received :
      {t : Tree P} (moves : List (Move P))
      → Session request t
      → pushes moves ≡ t.outbox
      → ((v : Validator) × (push_all new (received request moves) ≡ ok v))
        × (is_valid (validate (received request moves)) ≡ not (is_some (get t.open_nodes root)))
  unfolding validate Check.finish
  validate-received {t} moves session whole =
      let (v, accepted, c) = Session-Accepts request session in
      let (fewer, thinned, out) = received-Thinned request moves in
      let thinned' : Thinned t.outbox fewer = subst (λ l. Thinned l fewer) whole thinned in
      let (m, taken) = first-Thinned request refl thinned' accepted in
      let read : push_all new (received request moves) ≡ ok (at_seq m v) =
        ap (push_all new) out ∙ Accepts-push_all request taken in
      ((at_seq m v, read), rw (read, c.ended) (ground arith))
