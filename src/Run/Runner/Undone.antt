-- ===== src/Run/Runner/Undone.antt =====
-- What a rollback of crates/core/src/run/mod.rs performs.
use mix.Base.{
  ℕ, zero, suc, ◌≤◌, ◌<◌, List, [], ◌∷◌, Option, none, some, Bool, true, false, ◌≡◌, refl, ap,
  arith, nat_eq, length, Text,
}
use mix.Effect.Action.{Action}
use mix.Effect.Failure.{Failure, Outcome}
use mix.Events.Message.{Diagnostic}
use mix.Run.Runner.{Input, Next, Machine}
use mix.Run.Runner.Rounds.{Turned}
use mix.Run.Runner.Turn.{Stepped, stepped, turn_in, turn, step}
use mix.Run.Runner.Returns.{turn_in-Fares}
use mix.Run.Runner.Sessions.{rounds, rank-bounded}
use mix.Run.Runner.Invariant.{Asked, asked, Answers, Good, Fares, rank}
use mix.Run.Runner.Rolls.{pending, Unwinding, Rolls}
use mix.Run.Runner.Rolls.Backward.{turn_in-Rolls}

module _ {P : Type 0} (diagnose : Failure → Diagnostic P)
    (contents : List (Diagnostic P) → List Text → P) where
  -- What a call of `step` makes of the actions that are to be performed.
  abbrev Rolled : List Action → Stepped diagnose contents → Type 0
  Rolled actions (Stepped.next (Next.perform action) m) =
      Good m.runner m.tree
      × (asked m.runner.phase ≡ Asked.outcome)
      × Unwinding m.runner m.runner.phase
      × (actions ≡ action ∷ pending m.runner m.runner.phase)
  Rolled actions (Stepped.next Next.finished m) = actions ≡ []
  Rolled actions _ = ⊥

  stepped-Rolled :
      (fuel rounds : ℕ) (actions : List Action) (turned : Option (Turned P))
      → Fares rounds turned
      → Rolls actions turned
      → rounds ≤ fuel
      → ((m : Machine P)
          → Good m.runner m.tree
          → Answers (asked m.runner.phase) m.input
          → Unwinding m.runner m.runner.phase
          → rank m.runner < fuel
          → Rolled (pending m.runner m.runner.phase) (step diagnose contents fuel m))
      → Rolled actions (stepped diagnose contents (step diagnose contents fuel) turned)
  stepped-Rolled fuel rounds actions none fares rolls h rest = absurd fares
  stepped-Rolled fuel rounds actions (some (Turned.yields (Next.perform action) m)) (good, waits)
        (unwinding, e) h rest =
      (good, waits, unwinding, e)
  stepped-Rolled fuel rounds actions (some (Turned.yields Next.finished m)) fares rolls h rest =
      rolls
  stepped-Rolled fuel rounds actions (some (Turned.yields (Next.observe q) m)) fares rolls h rest =
      absurd rolls
  stepped-Rolled fuel rounds actions (some (Turned.again m)) (good, answers, less) (unwinding, e) h
        rest =
      rw e (rest m good answers unwinding (omega (arith, less, h)))

  step-Rolled :
      (fuel : ℕ) (m : Machine P) (actions : List Action)
      → Good m.runner m.tree
      → Answers (asked m.runner.phase) m.input
      → Rolls actions (turn diagnose contents m)
      → rank m.runner < fuel
      → Rolled actions (step diagnose contents fuel m)
  unfolding step turn
  step-Rolled zero m actions good answers rolls h = absurd (omega (arith, h))
  step-Rolled (suc fuel) m actions (tables, phased) answers rolls h =
      let r = m.runner in
      stepped-Rolled fuel (rank r) actions (turn_in diagnose contents r m.tree m.input r.phase)
        (turn_in-Fares diagnose contents r m.tree m.input r.phase tables phased answers) rolls
        (omega (arith, h))
        (λ m' good' answers' unwinding less.
          step-Rolled fuel m' (pending m'.runner m'.runner.phase) good' answers'
            (turn_in-Rolls diagnose contents m'.runner m'.tree m'.input m'.runner.phase good'.1
              unwinding)
            less)

  abbrev performs_on :
      (Machine P → List Action × Bool) → Stepped diagnose contents → List Action × Bool
  performs_on rest (Stepped.next (Next.perform action) m) =
      let (actions, finishes) = rest m in (action ∷ actions, finishes)
  performs_on rest (Stepped.next Next.finished m) = ([], true)
  performs_on rest _ = ([], false)

  -- What is performed as a driver answers with outcomes, and whether the run finishes.
  unfoldable pub performs : Machine P → List Outcome → List Action × Bool
  unfolding step
  performs m [] = performs_on (λ _. ([], false)) (step diagnose contents (rounds m.runner) m)
  performs m (outcome ∷ outcomes) =
      performs_on (λ m'. performs (record m' { input = some (Input.done outcome) }) outcomes)
        (step diagnose contents (rounds m.runner) m)

  performs_on-Rolled :
      (actions : List Action) (s : Stepped diagnose contents)
      (rest : Machine P → List Action × Bool)
      → Rolled actions s
      → ((m : Machine P) (action : Action)
          → Good m.runner m.tree
          → asked m.runner.phase ≡ Asked.outcome
          → Unwinding m.runner m.runner.phase
          → actions ≡ action ∷ pending m.runner m.runner.phase
          → rest m ≡ (pending m.runner m.runner.phase, true))
      → performs_on rest s ≡ (actions, true)
  performs_on-Rolled actions (Stepped.next (Next.perform action) m) rest (good, waits, unwinding, e)
        next =
      rw (next m action good waits unwinding e, e) refl
  performs_on-Rolled actions (Stepped.next Next.finished m) rest e next = rw e refl
  performs_on-Rolled actions (Stepped.next (Next.observe q) m) rest rolled next = elim rolled [ ]
  performs_on-Rolled actions Stepped.out_of_fuel rest rolled next = elim rolled [ ]
  performs_on-Rolled actions Stepped.panicked rest rolled next = elim rolled [ ]

  -- A round that turns to a rollback is followed by all of it, whatever comes of its actions.
  pub performs-Rolls :
      (m : Machine P) (actions : List Action) (outcomes : List Outcome)
      → Good m.runner m.tree
      → Answers (asked m.runner.phase) m.input
      → Rolls actions (turn diagnose contents m)
      → length actions ≤ length outcomes
      → performs m outcomes ≡ (actions, true)
  unfolding performs turn
  performs-Rolls m actions [] good answers rolls h =
      let r = m.runner in
      performs_on-Rolled actions (step diagnose contents (rounds r) m) (λ _. ([], false))
        (step-Rolled (rounds r) m actions good answers rolls (rank-bounded r m.tree r.phase good.1))
        (λ m' action _ _ _ e. absurd (let l = ap length e in omega (arith, l, h)))
  performs-Rolls m actions (outcome ∷ outcomes) good answers rolls h =
      let r = m.runner in
      performs_on-Rolled actions (step diagnose contents (rounds r) m)
        (λ m'. performs (record m' { input = some (Input.done outcome) }) outcomes)
        (step-Rolled (rounds r) m actions good answers rolls (rank-bounded r m.tree r.phase good.1))
        (λ m' action good' waits unwinding e.
          let r' = m'.runner in
          let i = some (Input.done outcome) in
          performs-Rolls (record m' { input = i }) (pending r' r'.phase) outcomes good'
            (rw waits (outcome, refl))
            (turn_in-Rolls diagnose contents r' m'.tree i r'.phase good'.1 unwinding)
            (let l = ap length e in omega (arith, l, h)))
