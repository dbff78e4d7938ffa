-- ===== src/Run/Runner/Quiet.antt =====
-- Rounds of crates/core/src/run/mod.rs that leave a stopped run stopped.
pub mod Forward
pub mod Backward
use mix.Base.{
  ℕ, zero, suc, List, [], ◌∷◌, Option, none, some, Bool, true, false, if◌then◌else◌, ◌≡◌, refl, ap,
  ◌∙◌, arith, inl, inr, ◌==◌, nat_eq, get_or, get_elem?, set, length, map, Text, is_some,
  Bool-cases, Option-cases,
}
use mix.Effect.Action.{Action}
use mix.Effect.Failure.{Failure, Outcome}
use mix.Events.Message.{Cancellation, Diagnostic, Kind}
use mix.Events.Tree.State.{Tree, start, finish}
use mix.Events.Tree.Abandon.{succeeded, already_satisfied, cancelled, failed}
use mix.Run.Runner.{
  Fallible, StepSpec, Input, Next, StepOutcome, After, Undoing, Phase, Runner, Machine,
}
use mix.Run.Runner.Moves.{
  record_outcome, caused, finish_or_commit, roll_back_only, roll_back, fail, cancel, cancel_alone,
  reclaims,
}
use mix.Run.Runner.Rounds.{
  Turned, expect, rolled_back, popped, undone_runner, forget, bare, plan_key, rollback_key,
  answered, observed, resolved, interrupts, or_interrupted, committed_runner, settled_verdict,
  ◌>>=◌,
}
use mix.Run.Runner.Forward.{
  act, acted, open_plan, check, check_step, begin, launch, execute, advance, executed, noted,
  step_start,
}
use mix.Run.Runner.Backward.{
  next_rollback, undo, undo_with, undone, undo_noted, reclaim_start, rollback_diagnostic,
  end_reclaim, warn_commit, warn_incomplete, verdict_ending, commit, committed, close,
}
use mix.Run.Runner.Turn.{Stepped, stepped, turn_in, turn, step}

abbrev pub observes : Next → Bool
observes (Next.observe _) = true
observes _ = false

-- A round that leaves the run stopped, and asks for no facts.
abbrev pub Quiet : {P : Type 0} → Option (Turned P) → Type 0
Quiet none = Unit
Quiet (some (Turned.again m)) = is_some m.runner.stopped ≡ true
Quiet (some (Turned.yields n m)) = (observes n ≡ false) × (is_some m.runner.stopped ≡ true)

stopped-finish_or_commit : (r : Runner) → (finish_or_commit r).stopped ≡ r.stopped
unfolding finish_or_commit
stopped-finish_or_commit r = refl

pub stopped-cancel :
    (r : Runner) (cause : Cancellation) (current : Option ℕ)
    → (cancel r cause current).stopped ≡ r.stopped
unfolding cancel cancel_alone finish_or_commit roll_back_only roll_back
stopped-cancel r cause current = ground (arith)

pub stopped-fail :
    (r : Runner) (step : ℕ) (spec : StepSpec) (failure : Failure)
    → (fail r step spec failure).stopped ≡ r.stopped
unfolding fail roll_back_only roll_back caused record_outcome
stopped-fail r step spec failure = ground (arith)

pub stopped-rolled_back : (r : Runner) (after : After) → (rolled_back r after).stopped ≡ r.stopped
unfolding rolled_back finish_or_commit
stopped-rolled_back r After.close = refl
stopped-rolled_back r (After.continue next) = refl
stopped-rolled_back r After.commit = refl

module _ {P : Type 0} where
  pub Quiet-bind :
      {A : Type 0} (o : Option A) (f : A → Option (Turned P))
      → ((a : A) → o ≡ some a → Quiet (f a))
      → Quiet (o >>= f)
  Quiet-bind none f h = tt
  Quiet-bind (some a) f h = h a refl

module _ {P : Type 0} (diagnose : Failure → Diagnostic P)
    (contents : List (Diagnostic P) → List Text → P) where
  pub act-Quiet :
      (r : Runner) (t : Tree P) (node : ℕ) (action : Action)
      → is_some r.stopped ≡ true
      → Quiet (act diagnose contents r t node action)
  unfolding act
  act-Quiet r t node action h = ground (arith, h)

  pub acted-stopped :
      (r r' : Runner) (t t' : Tree P) (outcome : Outcome)
      → acted diagnose contents r t outcome ≡ some (r', t')
      → r'.stopped ≡ r.stopped
  unfolding acted
  acted-stopped r r' t t' outcome e = ground (arith, e)
