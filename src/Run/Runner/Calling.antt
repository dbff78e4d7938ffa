-- ===== src/Run/Runner/Calling.antt =====
-- What the rounds of the loop of crates/core/src/run/mod.rs share: a lookup or a call of the tree
-- that succeeds, and the start and the end of an action.
use mix.Base.{
  ℕ, zero, suc, ◌+◌, ◌<◌, List, [], ◌∷◌, Option, none, some, Bool, true, false, ◌≡◌, refl, arith,
  nat_eq, text_eq, get_elem?, length, Text,
}
use mix.Effect.Action.{Action}
use mix.Effect.Describe.{describe}
use mix.Effect.Failure.{Failure, Outcome}
use mix.Events.Message.{Diagnostic, Kind}
use mix.Events.Tree.State.{Tree, Used, ok, start}
use mix.Run.Runner.{StepSpec, Runner}
use mix.Run.Runner.Rounds.{Turned, expect, action_key, bare, ◌>>=◌}
use mix.Run.Runner.Forward.{act, acted, acted_ending}
use mix.Run.Runner.Chain.{Link, Held, after_start, start-Held, finish-Held}
use mix.Run.Runner.Keys.{Keyed, PlanFresh, ActionsFree, weakened}
use mix.Run.Runner.Invariant.{Asked, asked, Busy, Good, Fares, undoable_from}

pub get-below :
    (steps : List StepSpec) (i : ℕ)
    → i < length steps
    → (s : StepSpec) × (get_elem? steps i ≡ some s)
get-below [] i h = absurd (omega (arith, h))
get-below (s ∷ steps) zero h = (s, refl)
get-below (s ∷ steps) (suc i) h = get-below steps i (omega (arith, h))

-- What is undoable from one step on is undoable from the step before.
pub passed :
    {steps : List StepSpec} {used : List Text} {performed : ℕ} (k : Keyed steps) (step from : ℕ)
    (independent : Bool)
    → PlanFresh steps used performed from (undoable_from independent step)
    → PlanFresh steps used performed from (undoable_from independent (step + 1))
passed k step from true fresh =
    weakened k fresh _ from (undoable_from true (step + 1)) (omega arith) (omega arith)
      (λ j e. ground (arith, e))
passed k step from false fresh =
    weakened k fresh _ from (undoable_from false (step + 1)) (omega arith) (omega arith) (λ j e. e)

module _ {P : Type 0} where
  -- A round goes on behind a lookup or a call of the tree that succeeds.
  pub through :
      {A : Type 0} (o : Option A) (a : A) (f : A → Option (Turned P)) (rounds : ℕ)
      → o ≡ some a
      → Fares rounds (f a)
      → Fares rounds (o >>= f)
  through o a f rounds e h = rw e h

  pub called :
      (u : Used (Tree P)) (t : Tree P) (f : Tree P → Option (Turned P)) (rounds : ℕ)
      → u ≡ ok t
      → Fares rounds (f t)
      → Fares rounds (expect u >>= f)
  called u t f rounds e h = rw e h

module _ {P : Type 0} (diagnose : Failure → Diagnostic P)
    (contents : List (Diagnostic P) → List Text → P) where
  -- An action starts under the lowest node of the chain.
  pub act-Held :
      (r : Runner) (t : Tree P) (rounds node : ℕ) (keys : List Text) (links : List Link)
      (action : Action)
      → Held t ((node, keys) ∷ links)
      → ActionsFree keys r.performed
      → ((t' : Tree P) (id : ℕ)
          → Held t' ((id, []) ∷ (node, action_key (r.performed + 1) ∷ keys) ∷ links)
          → Good (record r { performed = r.performed + 1; acting = some id }) t')
      → asked r.phase ≡ Asked.outcome
      → Fares rounds (act diagnose contents r t node action)
  unfolding act
  act-Held r t rounds node keys links action held free good awaits =
      let (operation, subject) = describe action in
      let s = bare (action_key (r.performed + 1)) (Kind.action operation subject) in
      let (e, held') = start-Held t node keys links s held (free (r.performed + 1) (omega arith)) in
      called (start t node s) (after_start t node s) _ rounds e
        (good (after_start t node s) t.next held', awaits)

  -- Behind the answer, the action is closed.
  pub acted-Held :
      (r : Runner) (t : Tree P) (outcome : Outcome) (links : List Link)
      → Busy r t true links
      → (t' : Tree P) × (acted diagnose contents r t outcome
          ≡ some (record r { acting = none }, t'))
        × Held t' links
  unfolding acted
  acted-Held r t outcome links (id, acts, held) =
      let e = acted_ending diagnose contents outcome r.stopped in
      let (t', done, held') = finish-Held t id [] links e held in
      (t', rw acts (rw done refl), held')
