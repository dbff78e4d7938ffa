-- ===== src/Run/Runner/Stopping.antt =====
-- A run of crates/core/src/run/mod.rs that is stopped.
use mix.Base.{
  Eq, Bool, ℕ, zero, suc, List, [], Option, none, some, true, false, ◌≡◌, refl, nat_eq, map, Text,
  is_some,
}
use mix.Effect.Failure.{Failure}
use mix.Events.Message.{Diagnostic, Kind}
use mix.Events.Tree.State.{Tree, start}
use mix.Run.Runner.{Input, Next, Phase, Runner, Machine}
use mix.Run.Runner.Rounds.{Turned, expect, popped, bare, plan_key}
use mix.Run.Runner.Forward.{open_plan}
use mix.Run.Runner.Backward.{undo}
use mix.Run.Runner.Turn.{Stepped, stepped, turn_in, turn, step}
use mix.Run.Runner.{StepSpec}
use mix.Run.Runner.Keys.{Keyed}
use mix.Run.Runner.Sessions.{runner_of, Driven, Entered, rounds, step-Driven}
use mix.Run.Runner.Invariant.{Asked, Answers}
use mix.Run.Runner.Quiet.{observes, Quiet, Quiet-bind}
use mix.Run.Runner.Quiet.Forward.{check-Quiet, begin-Quiet, execute-Quiet, executed-Quiet}
use mix.Run.Runner.Quiet.Backward.{
  next_rollback-Quiet, undo_with-Quiet, undone-Quiet, commit-Quiet, committed-Quiet, close-Quiet,
}

module _ {P : Type 0} (diagnose : Failure → Diagnostic P)
    (contents : List (Diagnostic P) → List Text → P) where
  turn_in-Quiet :
      (r : Runner) (t : Tree P) (i : Option Input) (p : Phase)
      → is_some r.stopped ≡ true
      → Quiet (turn_in diagnose contents r t i p)
  unfolding turn_in open_plan undo
  turn_in-Quiet r t i Phase.opening h =
      let s = record (bare plan_key (Kind.plan [])) { planned = map (λ s. s.key) r.steps } in
      Quiet-bind (expect (start t r.parent s)) _ (λ t' _. h)
  turn_in-Quiet r t i (Phase.checking step false) h = check-Quiet diagnose contents r t i step h
  turn_in-Quiet r t i (Phase.checking step true) h = begin-Quiet diagnose contents r t i step h
  turn_in-Quiet r t i (Phase.executing step node queue false) h =
      execute-Quiet diagnose contents r t i step node queue h
  turn_in-Quiet r t i (Phase.executing step node queue true) h =
      executed-Quiet diagnose contents r t i step node queue h
  turn_in-Quiet r t i (Phase.rolling_back remaining none awaiting) h =
      next_rollback-Quiet diagnose contents r t i remaining h
  turn_in-Quiet r t i (Phase.rolling_back remaining (some u) false) h =
      undo_with-Quiet diagnose contents r t i remaining u (popped u) h
  turn_in-Quiet r t i (Phase.rolling_back remaining (some u) true) h =
      undone-Quiet diagnose contents r t i remaining u h
  turn_in-Quiet r t i (Phase.committing false reclaim) h = commit-Quiet diagnose contents r t h
  turn_in-Quiet r t i (Phase.committing true reclaim) h =
      committed-Quiet diagnose contents r t i reclaim h
  turn_in-Quiet r t i Phase.closing h = close-Quiet diagnose contents r t i h
  turn_in-Quiet r t i Phase.closed h = (refl, h)

  abbrev Resting : Stepped diagnose contents → Type 0
  Resting (Stepped.next n m) = (observes n ≡ false) × (is_some m.runner.stopped ≡ true)
  Resting _ = Unit

  stepped-Resting :
      (rest : Machine P → Stepped diagnose contents) (turned : Option (Turned P))
      → Quiet turned
      → ((m : Machine P) → is_some m.runner.stopped ≡ true → Resting (rest m))
      → Resting (stepped diagnose contents rest turned)
  stepped-Resting rest none quiet h = tt
  stepped-Resting rest (some (Turned.yields n m)) quiet h = quiet
  stepped-Resting rest (some (Turned.again m)) quiet h = h m quiet

  step-Resting :
      (fuel : ℕ) (m : Machine P)
      → is_some m.runner.stopped ≡ true
      → Resting (step diagnose contents fuel m)
  unfolding step turn
  step-Resting zero m h = tt
  step-Resting (suc fuel) m h =
      stepped-Resting (step diagnose contents fuel)
        (turn_in diagnose contents m.runner m.tree m.input m.runner.phase)
        (turn_in-Quiet m.runner m.tree m.input m.runner.phase h) (λ m' h'. step-Resting fuel m' h')

  -- Once a run is stopped, a call of `step` that returns asks for no facts, and leaves the run stopped.
  observes-stopped :
      (fuel : ℕ) (m : Machine P) (n : Next) (m' : Machine P)
      → is_some m.runner.stopped ≡ true
      → step diagnose contents fuel m ≡ Stepped.next n m'
      → (observes n ≡ false) × (is_some m'.runner.stopped ≡ true)
  observes-stopped fuel m n m' h e = rw e at (step-Resting fuel m h)

module _ {P : Type 0} ⦃eq : Eq P⦄ (diagnose : Failure → Diagnostic P)
    (contents : List (Diagnostic P) → List Text → P) where
  -- The keys of the steps differ and none is the runner's own, and the runner starts under an open
  -- node that has no plan. Then, whatever calls a driver has made that answers what it is asked,
  -- stops, puts in doubt, and reports progress and warnings: if the run was stopped, the next call of
  -- `step` with an answer to what was asked last returns, asks for no facts, and leaves the run
  -- stopped.
  pub stopped-Driven :
      (alone : Bool) (parent : ℕ) (steps : List StepSpec) (t₀ : Tree P)
      → Keyed steps
      → Entered parent t₀
      → (a : Asked) (r : Runner) (t : Tree P) (i : Option Input)
      → Driven diagnose contents (runner_of alone parent steps) t₀ a r t
      → Answers a i
      → is_some r.stopped ≡ true
      → (n : Next) × (m : Machine P) × (step diagnose contents
            (rounds r)
            (record { runner = r; tree = t; input = i })
          ≡ Stepped.next n m)
        × (observes n ≡ false)
        × (is_some m.runner.stopped ≡ true)
  stopped-Driven alone parent steps t₀ keyed entered a r t i driven answers h =
      let (n, m, e) =
        step-Driven diagnose contents alone parent steps t₀ keyed entered a r t i driven answers in
      let now : Machine P = record { runner = r; tree = t; input = i } in
      let (quiet, still_stopped) = observes-stopped diagnose contents (rounds r) now n m h e in
      (n, m, e, quiet, still_stopped)
