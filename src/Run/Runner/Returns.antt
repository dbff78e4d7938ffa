-- ===== src/Run/Runner/Returns.antt =====
-- A call of `step` of crates/core/src/run/mod.rs returns to the driver: no `expect` and no index of it
-- fails, and its loop ends.
use mix.Base.{
  ℕ, zero, suc, ◌≤◌, ◌<◌, List, Option, none, some, true, false, ◌≡◌, refl, arith, text_eq, length,
  Text,
}
use mix.Effect.Failure.{Failure}
use mix.Events.Message.{Diagnostic}
use mix.Events.Tree.State.{Tree}
use mix.Run.Runner.{Input, Phase, Runner, Machine}
use mix.Run.Runner.Rounds.{Turned}
use mix.Run.Runner.Turn.{Stepped, stepped, turn_in, turn, step}
use mix.Run.Runner.Checking.{open_plan-Fares, check-Fares, begin-Fares}
use mix.Run.Runner.Executing.{execute-Fares, executed-Fares}
use mix.Run.Runner.Rolling.{next_rollback-Fares, undo-Fares, undone-Fares}
use mix.Run.Runner.Committing.{commit-Fares, committed-Fares, close-Fares}
use mix.Run.Runner.Invariant.{asked, asked_by, Answers, Good, Tabled, Phased, Fares, rank, rank_in}

module _ {P : Type 0} (diagnose : Failure → Diagnostic P)
    (contents : List (Diagnostic P) → List Text → P) where
  pub turn_in-Fares :
      (r : Runner) (t : Tree P) (i : Option Input) (p : Phase)
      → Tabled r
      → Phased r t p
      → Answers (asked p) i
      → Fares (rank_in (length r.steps) r.after p) (turn_in diagnose contents r t i p)
  unfolding turn_in
  turn_in-Fares r t i Phase.opening tables (o, at, free, below, closing) answers =
      open_plan-Fares diagnose contents r t i _ o tables at free below closing (omega arith)
  turn_in-Fares r t i (Phase.checking step false) tables (closing, low, planned) answers =
      check-Fares diagnose contents r t i step _ tables closing low planned (omega arith)
  turn_in-Fares r t i (Phase.checking step true) tables (closing, low, planned) answers =
      begin-Fares diagnose contents r t i step _ tables closing low planned answers (omega arith)
  turn_in-Fares r t i (Phase.executing step node queue false) tables (closing, noded, nested)
        answers =
      execute-Fares diagnose contents r t i step node _ queue tables closing noded nested
        (omega arith)
  turn_in-Fares r t i (Phase.executing step node queue true) tables (closing, noded, nested)
        answers =
      executed-Fares diagnose contents r t i step node _ queue tables closing noded nested answers
        (omega arith)
  turn_in-Fares r t i (Phase.rolling_back remaining none awaiting) tables (rolling, planned)
        answers =
      next_rollback-Fares diagnose contents r t i _ remaining tables rolling planned (omega arith)
  turn_in-Fares r t i (Phase.rolling_back remaining (some u) false) tables (rolling, low, nested)
        answers =
      undo-Fares diagnose contents r t i _ remaining u tables rolling low nested (omega arith)
  turn_in-Fares r t i (Phase.rolling_back remaining (some u) true) tables (rolling, low, nested)
        answers =
      undone-Fares diagnose contents r t i _ remaining u tables rolling low nested answers
        (omega arith)
  turn_in-Fares r t i (Phase.committing false reclaim) tables (used, held, unclaimed, free)
        answers =
      commit-Fares diagnose contents r t _ used tables held unclaimed free
  turn_in-Fares r t i (Phase.committing true reclaim) tables phased answers =
      committed-Fares diagnose contents r t i reclaim tables phased answers
  turn_in-Fares r t i Phase.closing tables (used, held) answers =
      close-Fares diagnose contents r t i _ used tables held
  turn_in-Fares r t i Phase.closed tables phased answers = ((tables, tt), refl)

  -- A call that returns, in good order, with the question that the phase waits on.
  abbrev pub Returned : Stepped diagnose contents → Type 0
  Returned (Stepped.next n m) = Good m.runner m.tree × (asked m.runner.phase ≡ asked_by n)
  Returned _ = ⊥

  stepped-Returned :
      (fuel : ℕ) (turned : Option (Turned P)) (rounds : ℕ)
      → Fares rounds turned
      → rounds ≤ fuel
      → ((m : Machine P)
          → Good m.runner m.tree
          → Answers (asked m.runner.phase) m.input
          → rank m.runner < fuel
          → Returned (step diagnose contents fuel m))
      → Returned (stepped diagnose contents (step diagnose contents fuel) turned)
  stepped-Returned fuel none rounds fares h rest = absurd fares
  stepped-Returned fuel (some (Turned.yields n m)) rounds fares h rest = fares
  stepped-Returned fuel (some (Turned.again m)) rounds (good, answers, less) h rest =
      rest m good answers (omega (arith, less, h))

  -- From good order, a call returns within its rank in rounds.
  pub step-Returned :
      (fuel : ℕ) (m : Machine P)
      → Good m.runner m.tree
      → Answers (asked m.runner.phase) m.input
      → rank m.runner < fuel
      → Returned (step diagnose contents fuel m)
  unfolding step turn turn_in
  step-Returned zero m good answers h = absurd (omega (arith, h))
  step-Returned (suc fuel) m (tables, phased) answers h =
      let p = m.runner.phase in
      stepped-Returned fuel (turn_in diagnose contents m.runner m.tree m.input p) (rank m.runner)
        (turn_in-Fares m.runner m.tree m.input p tables phased answers) (omega (arith, h))
        (λ m' good answers' less. step-Returned fuel m' good answers' less)

  -- A call that does not panic, however many rounds it is given.
  abbrev pub Sound : Stepped diagnose contents → Type 0
  Sound (Stepped.next n m) = Good m.runner m.tree × (asked m.runner.phase ≡ asked_by n)
  Sound Stepped.out_of_fuel = Unit
  Sound Stepped.panicked = ⊥

  stepped-Sound :
      (fuel : ℕ) (turned : Option (Turned P)) (rounds : ℕ)
      → Fares rounds turned
      → ((m : Machine P)
          → Good m.runner m.tree
          → Answers (asked m.runner.phase) m.input
          → Sound (step diagnose contents fuel m))
      → Sound (stepped diagnose contents (step diagnose contents fuel) turned)
  stepped-Sound fuel none rounds fares rest = absurd fares
  stepped-Sound fuel (some (Turned.yields n m)) rounds fares rest = fares
  stepped-Sound fuel (some (Turned.again m)) rounds (good, answers, less) rest = rest m good answers

  pub step-Sound :
      (fuel : ℕ) (m : Machine P)
      → Good m.runner m.tree
      → Answers (asked m.runner.phase) m.input
      → Sound (step diagnose contents fuel m)
  unfolding step turn turn_in
  step-Sound zero m good answers = tt
  step-Sound (suc fuel) m (tables, phased) answers =
      let p = m.runner.phase in
      stepped-Sound fuel (turn_in diagnose contents m.runner m.tree m.input p) (rank m.runner)
        (turn_in-Fares m.runner m.tree m.input p tables phased answers)
        (λ m' good answers'. step-Sound fuel m' good answers')
