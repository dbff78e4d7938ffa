-- ===== src/Events/Validate/Stream.antt =====
-- Runs of events that the validator accepts, one push after another.
use mathlib.Core.Path.{subst}
use mix.Base.{
  ℕ, ◌+◌, List, [], ◌∷◌, ◌++◌, some, ◌≡◌, refl, false, arith, ==_refl, nat_eq, text_eq, Text,
}
use mix.Events.Message.{Event, Envelope}
use mix.Events.Validate.State.{Validator, ok}
use mix.Events.Validate.Check.{no_nodes, push, push_event, push_all}

-- What `push` changes before it looks at the event.
abbrev pub advanced : Validator → Text → Validator
advanced v request = record v { next_seq = v.next_seq + 1; request = some request }

module _ {P : Type 0} (request : Text) where
  abbrev pub envelope : ℕ → Event P → Envelope P
  envelope seq event = record { seq = seq; request = request; event = some event }

  -- `Outbox::drain` of events that no later one supersedes: numbered one by one.
  unfoldable pub numbered : ℕ → List (Event P) → List (Envelope P)
  numbered seq [] = []
  numbered seq (event ∷ events) = envelope seq event ∷ numbered (seq + 1) events

  pub data Accepts : Validator → List (Event P) → Validator → Type 0 where
    stop : (v : Validator) → Accepts v [] v
    next :
        {v w u : Validator} {event : Event P} {events : List (Event P)}
        → push v (envelope v.next_seq event) ≡ ok w
        → w.next_seq ≡ v.next_seq + 1
        → Accepts w events u
        → Accepts v (event ∷ events) u

  pub Accepts-append :
      {v w u : Validator} {xs ys : List (Event P)}
      → Accepts v xs w
      → Accepts w ys u
      → Accepts v (xs ++ ys) u
  Accepts-append (stop _) b = b
  Accepts-append (next p n a) b = next p n (Accepts-append a b)

  pub Accepts-push_all :
      {v u : Validator} {events : List (Event P)}
      → Accepts v events u
      → push_all v (numbered v.next_seq events) ≡ ok u
  unfolding push_all numbered
  Accepts-push_all (stop _) = refl
  Accepts-push_all (next {v = v} {w = w} {u = u} {events = events} p n a) =
      rw (p, push_all) (subst (λ k. push_all w (numbered k events) ≡ ok u) n (Accepts-push_all a))

  pub push-event :
      (v w : Validator) (event : Event P)
      → v.request ≡ some request
      → v.root_finished ≡ false
      → no_nodes v.nodes ≡ false
      → push_event (advanced v request) event ≡ ok w
      → push v (envelope v.next_seq event) ≡ ok w
  unfolding push
  push-event v w event named open' nodes h = ground (arith, ==_refl v.next_seq, ==_refl request)
