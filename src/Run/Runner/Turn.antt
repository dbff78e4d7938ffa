-- ===== src/Run/Runner/Turn.antt =====
-- `step` of crates/core/src/run/mod.rs: the loop on fuel, whose arms are in Forward and Backward.
-- A panic is `none`. `diagnose` is `diagnostic` of crates/core/src/report/diagnose.rs, `contents`
-- packs the causes and the detail of a diagnostic.
use mix.Base.{ℕ, zero, suc, List, Option, none, some, true, false, nat_eq, text_eq, Text}
use mix.Effect.Failure.{Failure}
use mix.Events.Message.{Diagnostic}
use mix.Events.Tree.State.{Tree}
use mix.Run.Runner.{Input, Next, Phase, Runner, Machine}
use mix.Run.Runner.Rounds.{Turned}
use mix.Run.Runner.Forward.{open_plan, check, begin, execute, executed}
use mix.Run.Runner.Backward.{next_rollback, undo, undone, commit, committed, close}

module _ {P : Type 0} (diagnose : Failure → Diagnostic P)
    (contents : List (Diagnostic P) → List Text → P) where
  unfoldable pub turn_in : Runner → Tree P → Option Input → Phase → Option (Turned P)
  unfolding open_plan check begin execute executed next_rollback undo undone commit committed close
  turn_in r t i Phase.opening = open_plan diagnose contents r t i
  turn_in r t i (Phase.checking step false) = check diagnose contents r t i step
  turn_in r t i (Phase.checking step true) = begin diagnose contents r t i step
  turn_in r t i (Phase.executing step node queue false) =
      execute diagnose contents r t i step node queue
  turn_in r t i (Phase.executing step node queue true) =
      executed diagnose contents r t i step node queue
  turn_in r t i (Phase.rolling_back remaining none _) =
      next_rollback diagnose contents r t i remaining
  turn_in r t i (Phase.rolling_back remaining (some u) false) =
      undo diagnose contents r t i remaining u
  turn_in r t i (Phase.rolling_back remaining (some u) true) =
      undone diagnose contents r t i remaining u
  turn_in r t i (Phase.committing false _) = commit diagnose contents r t
  turn_in r t i (Phase.committing true reclaim) = committed diagnose contents r t i reclaim
  turn_in r t i Phase.closing = close diagnose contents r t i
  turn_in r t i Phase.closed = some (
      Turned.yields Next.finished
        (record { runner = record r { phase = Phase.closed }; tree = t; input = none }))

  unfoldable pub turn : Machine P → Option (Turned P)
  unfolding turn_in
  turn m = turn_in m.runner m.tree m.input m.runner.phase

  -- What a call of `step` comes to.
  pub data Stepped : Type 0 where
    out_of_fuel : Stepped
    panicked : Stepped
    next : Next → Machine P → Stepped

  -- A round, with what the loop goes on with.
  abbrev pub stepped : (Machine P → Stepped) → Option (Turned P) → Stepped
  stepped rest none = Stepped.panicked
  stepped rest (some (Turned.yields n m)) = Stepped.next n m
  stepped rest (some (Turned.again m)) = rest m

  unfoldable pub step : ℕ → Machine P → Stepped
  unfolding turn
  step zero m = Stepped.out_of_fuel
  step (suc fuel) m = stepped (step fuel) (turn m)
