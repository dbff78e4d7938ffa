-- ===== src/Run/Runner/Quiet/Forward.antt =====
-- The rounds of a stopped run that check and execute steps (crates/core/src/run/mod.rs).
use mix.Base.{
  ℕ, List, [], ◌∷◌, Option, none, some, true, ◌≡◌, ap, ◌∙◌, inl, inr, ◌==◌, nat_eq, get_elem?, set,
  length, Text, is_some, Bool-cases, Option-cases,
}
use mix.Effect.Action.{Action}
use mix.Effect.Failure.{Failure, Outcome}
use mix.Events.Message.{Cancellation, Diagnostic}
use mix.Events.Tree.State.{Tree, start, finish}
use mix.Events.Tree.Abandon.{succeeded, already_satisfied, cancelled, failed}
use mix.Run.Runner.{Fallible, StepSpec, Input, StepOutcome, Phase, Runner}
use mix.Run.Runner.Moves.{record_outcome, finish_or_commit}
use mix.Run.Runner.Rounds.{expect, answered, observed, resolved, interrupts, or_interrupted}
use mix.Run.Runner.Forward.{
  acted, check, check_step, begin, launch, execute, advance, executed, noted, step_start,
}
use mix.Run.Runner.Turn.{step}
use mix.Run.Runner.Quiet.{Quiet, stopped-cancel, stopped-fail, Quiet-bind, act-Quiet, acted-stopped}

module _ {P : Type 0} (diagnose : Failure → Diagnostic P)
    (contents : List (Diagnostic P) → List Text → P) where
  check_step-Quiet :
      (r : Runner) (t : Tree P) (i : Option Input) (step : ℕ) (stopped : Option Cancellation)
      → is_some stopped ≡ true
      → is_some r.stopped ≡ true
      → Quiet (check_step diagnose contents r t i step stopped)
  unfolding check_step
  check_step-Quiet r t i step (some cause) e h = ap is_some (stopped-cancel r cause none) ∙ h
  check_step-Quiet r t i step none e h = absurd (cc)

  pub check-Quiet :
      (r : Runner) (t : Tree P) (i : Option Input) (step : ℕ)
      → is_some r.stopped ≡ true
      → Quiet (check diagnose contents r t i step)
  unfolding check finish_or_commit
  check-Quiet r t i step h = elim (Bool-cases (step == length r.steps)) [
    | inl last ↦ rw last h
    | inr more ↦ rw more (check_step-Quiet r t i step r.stopped h h)
  ]

  launch-Quiet :
      (r : Runner) (t : Tree P) (step : ℕ) (spec : StepSpec) (node : ℕ)
      (actions : Fallible (List Action))
      → is_some r.stopped ≡ true
      → Quiet (launch diagnose contents r t step spec node actions)
  unfolding launch record_outcome
  launch-Quiet r t step spec node (Fallible.err failure) h =
      Quiet-bind (expect (finish t node (failed (diagnose failure)))) _
        (λ t' _. ap is_some (stopped-fail r step spec failure) ∙ h)
  launch-Quiet r t step spec node (Fallible.ok []) h =
      Quiet-bind (expect (finish t node already_satisfied)) _ (λ t' _. h)
  launch-Quiet r t step spec node (Fallible.ok (action ∷ actions)) h = h

  pub begin-Quiet :
      (r : Runner) (t : Tree P) (i : Option Input) (step : ℕ)
      → is_some r.stopped ≡ true
      → Quiet (begin diagnose contents r t i step)
  unfolding begin
  begin-Quiet r t i step h = Quiet-bind (observed i) _ (λ facts _.
      Quiet-bind (get_elem? r.steps step) _ (λ spec _.
        Quiet-bind (expect (start t r.plan (step_start diagnose contents spec))) _ (λ t' _.
          launch-Quiet (record r { nodes = set r.nodes step (some t.next) }) t' step spec t.next
            (resolved spec facts) h)))

  advance-Quiet :
      (r : Runner) (t : Tree P) (i : Option Input) (step : ℕ) (spec : StepSpec) (node : ℕ)
      (queue : List Action)
      → is_some r.stopped ≡ true
      → Quiet (advance diagnose contents r t i step spec node queue)
  unfolding advance record_outcome
  advance-Quiet r t i step spec node [] h =
      Quiet-bind (expect (finish t node succeeded)) _ (λ t' _. h)
  advance-Quiet r t i step spec node (action ∷ queue) h =
      act-Quiet diagnose contents (record r { phase = Phase.executing step node queue true }) t node
        action h

  pub execute-Quiet :
      (r : Runner) (t : Tree P) (i : Option Input) (step node : ℕ) (queue : List Action)
      → is_some r.stopped ≡ true
      → Quiet (execute diagnose contents r t i step node queue)
  unfolding execute record_outcome
  execute-Quiet r t i step node queue h = Quiet-bind (get_elem? r.steps step) _ (λ spec _.
      elim (Option-cases (interrupts r spec)) [
        | inl quiet ↦ rw quiet (advance-Quiet r t i step spec node queue h)
        | inr (cause, stops) ↦ rw stops (
            Quiet-bind (expect (finish t node (cancelled cause))) _ (λ t' _.
              ap is_some (
                stopped-cancel (record_outcome r spec (StepOutcome.cancelled cause)) cause
                  (some step))
              ∙ h))
      ])

  noted-Quiet :
      (r : Runner) (t : Tree P) (step node : ℕ) (spec : StepSpec) (queue : List Action)
      (outcome : Outcome)
      → is_some r.stopped ≡ true
      → Quiet (noted diagnose contents r t step spec node queue outcome)
  unfolding noted record_outcome
  noted-Quiet r t step node spec queue (Outcome.ok performed) h = h
  noted-Quiet r t step node spec queue (Outcome.err Failure.cancelled) h =
      let cause = or_interrupted r.stopped in
      let r' = record r { stopped = some cause } in
      Quiet-bind (expect (finish t node (cancelled cause))) _ (λ t' _.
        ap is_some
          (stopped-cancel (record_outcome r' spec (StepOutcome.cancelled cause)) cause (some step)))
  noted-Quiet r t step node spec queue (Outcome.err failure) h =
      Quiet-bind (expect (finish t node (failed (diagnose failure)))) _
        (λ t' _. ap is_some (stopped-fail r step spec failure) ∙ h)

  pub executed-Quiet :
      (r : Runner) (t : Tree P) (i : Option Input) (step node : ℕ) (queue : List Action)
      → is_some r.stopped ≡ true
      → Quiet (executed diagnose contents r t i step node queue)
  unfolding executed
  executed-Quiet r t i step node queue h = Quiet-bind (answered i) _ (λ outcome _.
      Quiet-bind {A = Runner × Tree P} (acted diagnose contents r t outcome) _ (λ ended e.
        let (r', t') = ended in
        let h' = ap is_some (acted-stopped diagnose contents r r' t t' outcome e) ∙ h in
        Quiet-bind (get_elem? r.steps step) _
          (λ spec _. noted-Quiet r' t' step node spec queue outcome h')))
