-- ===== src/Run/Runner/Rounds.antt =====
-- What the loop of `step` of crates/core/src/run/mod.rs reads, and what it does besides calls of the
-- tree.
use mix.Base.{
  ℕ, List, [], ◌∷◌, ◌++◌, Option, none, some, true, false, not, ◌||◌, if◌then◌else◌, ◌==◌, nat_eq,
  text_eq, get_or, set, filter, flat_map, Text, text, is_some,
}
use mix.Declared.Paths.{decimal}
use mix.Effect.Action.{Action}
use mix.Effect.Failure.{Failure, Outcome}
use mix.Effect.Observe.{Fact}
use mix.Events.Message.{Cancellation, Kind}
use mix.Events.Tree.State.{Tree, Start, Used, ok, err}
use mix.Run.Rollback.{rollback_order}
use mix.Run.Runner.{
  Fallible, StepSpec, Input, Next, Verdict, After, Doubt, Undoing, Phase, Runner, Machine,
}
use mix.Run.Runner.Moves.{get_or_insert, finish_or_commit}

abbrev pub code_rollback_incomplete : ℕ
code_rollback_incomplete = 31

infixl 5 ◌>>=◌
abbrev pub ◌>>=◌ : {A B : Type 0} → Option A → (A → Option B) → Option B
none >>= f = none
some a >>= f = f a

-- What one round of the loop does: it goes around again, or it returns to the driver.
pub data Turned (P : Type 0) : Type 0 where
  again : Machine P → Turned P
  yields : Next → Machine P → Turned P

abbrev pub expect : {A : Type 0} → Used A → Option A
expect (ok a) = some a
expect (err _) = none

abbrev pub plan_key : Text
plan_key = text "plan"

abbrev pub reclaim_key : Text
reclaim_key = text "reclaim"

unfoldable pub action_key : ℕ → Text
action_key n = text "action-" ++ decimal n

abbrev pub rollback_key : Text → Text
rollback_key key = text "rollback:" ++ key

-- The arguments of `Outcome` and of facts that `step` asserts.
abbrev pub answered : Option Input → Option Outcome
answered (some (Input.done outcome)) = some outcome
answered _ = none

abbrev pub observed : Option Input → Option (Fallible (List Fact))
observed (some (Input.facts facts)) = some facts
observed _ = none

-- The queue, and what could not be observed.
unfoldable pub resolved : StepSpec → Fallible (List Fact) → Fallible (List Action)
resolved spec (Fallible.err failure) = Fallible.err failure
resolved spec (Fallible.ok facts) = spec.actions facts

abbrev pub or_interrupted : Option Cancellation → Cancellation
or_interrupted none = Cancellation.interrupted
or_interrupted (some cause) = cause

abbrev pub doubtful_undo : List Doubt → ℕ → List Action
doubtful_undo doubts step =
    flat_map (λ d. rollback_order (d.undo ∷ [])) (filter (λ d. d.step == step) doubts)

-- Starting to undo a step takes what it left out of the runner.
unfoldable pub forget : Runner → ℕ → Runner
forget r step = record r {
  journal = set r.journal step [];
  doubts = filter (λ d. not (d.step == step)) r.doubts;
}

unfoldable pub undoing_of : Runner → ℕ → ℕ → Undoing
undoing_of r step node = record {
  step = step;
  node = node;
  doubtful = doubtful_undo r.doubts step;
  queue = rollback_order (get_or r.journal step []);
  doubting = false;
  failed = false;
}

abbrev pub bare : {P : Type 0} → Text → Kind P → Start P
bare key kind = record { key = key; kind = kind; planned = []; shielded = false }

-- What undoing has left, and the next action with whether it is in doubt.
abbrev pub popped_from : Undoing → (doubtful queue : List Action) → Option (Action × Undoing)
popped_from u (action ∷ doubtful) queue =
    some (action, record u { doubtful = doubtful; queue = queue; doubting = true })
popped_from u [] (action ∷ queue) =
    some (action, record u { doubtful = []; queue = queue; doubting = false })
popped_from u [] [] = none

unfoldable pub popped : Undoing → Option (Action × Undoing)
popped u = popped_from u u.doubtful u.queue

-- A failure is noted, unless it is of an undo in doubt.
abbrev pub noted_failure : Undoing → Outcome → Option Failure
noted_failure u (Outcome.ok _) = none
noted_failure u (Outcome.err failure) = if u.doubting then none else some failure

abbrev pub listed : Text → Option Failure → List (Text × Failure)
listed key none = []
listed key (some failure) = (key, failure) ∷ []

unfoldable pub undone_runner : Runner → Text → Option Failure → Runner
undone_runner r key noted = record r {
  report = record r.report { rollback_failures = r.report.rollback_failures ++ listed key noted };
}

unfoldable pub undone_step : Undoing → Option Failure → Undoing
undone_step u noted = record u { failed = u.failed || is_some noted }

unfoldable pub committed_runner : Runner → Outcome → Runner
committed_runner r (Outcome.err Failure.cancelled) =
    let cause = or_interrupted r.stopped in
    let verdict : Option Verdict = elim r.verdict [
      | none ↦ some (Verdict.cancelled cause)
      | some Verdict.succeeded ↦ some (Verdict.cancelled cause)
      | some v ↦ some v
    ] in
    record r { stopped = some cause; verdict = verdict }
committed_runner r _ = record r { verdict = get_or_insert r.verdict Verdict.succeeded }

abbrev pub settled_verdict : Runner → Verdict
settled_verdict r = elim r.verdict [ none ↦ Verdict.succeeded | some v ↦ v ]

abbrev pub interrupts : Runner → StepSpec → Option Cancellation
interrupts r spec = if spec.shielded then none else r.stopped

-- Behind the last rollback.
unfoldable pub rolled_back : Runner → After → Runner
unfolding finish_or_commit
rolled_back r After.close = record r { after = After.close; phase = Phase.closing }
rolled_back r (After.continue next) = record r {
  after = After.close;
  phase = Phase.checking next false;
}
rolled_back r After.commit = finish_or_commit (record r { after = After.close })

abbrev pub go : {P : Type 0} → Runner → Tree P → Option Input → Turned P
go r t i = Turned.again (record { runner = r; tree = t; input = i })
