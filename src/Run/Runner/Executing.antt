-- ===== src/Run/Runner/Executing.antt =====
-- The rounds of the loop of crates/core/src/run/mod.rs in which a step runs its actions.
use Prim.Native.Nat.{◌*◌}
use mix.Base.{
  ℕ, ◌+◌, ◌<◌, List, [], ◌∷◌, ◌++◌, Option, none, some, true, false, ◌≡◌, refl, arith, inl, inr,
  nat_eq, text_eq, get_or, get_elem?, length, Text, Option-cases,
}
use mix.Effect.Action.{Action}
use mix.Effect.Failure.{Failure, Outcome}
use mix.Events.Message.{Cancellation, Diagnostic}
use mix.Events.Tree.State.{Tree, finish}
use mix.Events.Tree.Abandon.{succeeded, cancelled, failed}
use mix.Run.Runner.{StepSpec, Input, StepOutcome, After, Phase, Runner}
use mix.Run.Runner.Moves.{record_outcome, cancel, fail}
use mix.Run.Runner.Rounds.{Turned, expect, action_key, answered, interrupts, or_interrupted, ◌>>=◌}
use mix.Run.Runner.Forward.{acted, advance, execute, executed, noted}
use mix.Run.Runner.Chain.{finish-Held}
use mix.Run.Runner.Keys.{add_action, weakened}
use mix.Run.Runner.Tables.{Tabled-journaled}
use mix.Run.Runner.Settling.{fail-Settled, cancel-Settled}
use mix.Run.Runner.Calling.{get-below, passed, through, called, act-Held, acted-Held}
use mix.Run.Runner.Invariant.{Asked, Answers, Tabled, Noded, Nested, Fares, undoable_from, checks}

module _ {P : Type 0} (diagnose : Failure → Diagnostic P)
    (contents : List (Diagnostic P) → List Text → P) where
  pub advance-Fares :
      (r : Runner) (t : Tree P) (i : Option Input) (step node rounds : ℕ) (spec : StepSpec)
      (queue : List Action)
      → Tabled r
      → r.after ≡ After.close
      → Noded r step
      → Nested r t node false (step + 1) (undoable_from r.independent step)
      → checks (length r.steps) (step + 1) < rounds
      → Fares rounds (advance diagnose contents r t i step spec node queue)
  unfolding advance record_outcome
  advance-Fares r t i step node rounds spec [] tables closing noded (used, keys, fresh, free, held)
        h =
      let (t', e, held') = finish-Held t node keys ((r.plan, used) ∷ []) succeeded held in
      called (finish t node succeeded) t' _ rounds e (
        (
          tables,
          (
            closing,
            omega (arith, noded.0),
            (used, held', passed tables.keyed step (step + 1) r.independent fresh),
          ),
        ),
        tt,
        h,
      )
  advance-Fares r t i step node rounds spec (action ∷ queue) tables closing noded
        (used, keys, fresh, free, held) h =
      act-Held diagnose contents (record r { phase = Phase.executing step node queue true }) t
        rounds node keys ((r.plan, used) ∷ []) action held free
        (λ t' id held'. (
          tables,
          (
            closing,
            noded,
            (
              used,
              action_key (r.performed + 1) ∷ keys,
              weakened tables.keyed fresh (r.performed + 1) (step + 1)
                  (undoable_from r.independent step) (omega arith) (omega arith) (λ j l. l),
              add_action keys r.performed free,
              (id, refl, held'),
            ),
          ),
        ))
        refl

  -- A call with the same error, whatever it is.
  failed-Fares :
      (r : Runner) (t : Tree P) (step node rounds : ℕ) (spec : StepSpec) (keys : List Text)
      (failure : Failure)
      → Tabled r
      → r.after ≡ After.close
      → Noded r step
      → Nested r t node false (step + 1) (undoable_from r.independent step)
      → checks (length r.steps) (step + 1) + 4 < rounds
      → Fares rounds (
          expect (finish t node (failed (diagnose failure))) >>= λ t'.
          some
            (Turned.again (record { runner = fail r step spec failure; tree = t'; input = none })))
  failed-Fares r t step node rounds spec keys failure tables closing noded
        (used, keys', fresh, free, held) h =
      let e = failed (diagnose failure) in
      let (t', done, held') = finish-Held t node keys' ((r.plan, used) ∷ []) e held in
      called (finish t node e) t' _ rounds done (
        fail-Settled r t' none step rounds spec failure tables closing noded (used, held', fresh) h)

  -- A step that is cancelled.
  cancelled-Fares :
      (r : Runner) (t : Tree P) (i : Option Input) (step node rounds : ℕ) (spec : StepSpec)
      (cause : Cancellation)
      → Tabled r
      → r.after ≡ After.close
      → Noded r step
      → Nested r t node false (step + 1) (undoable_from r.independent step)
      → length r.steps * 3 + 2 < rounds
      → Fares rounds (
          expect (finish t node (cancelled cause)) >>= λ t'. some (
            Turned.again (record {
              runner =
                  cancel (record_outcome r spec (StepOutcome.cancelled cause)) cause (some step);
              tree = t';
              input = i;
            })))
  unfolding record_outcome
  cancelled-Fares r t i step node rounds spec cause tables closing noded
        (used, keys, fresh, free, held) h =
      let (t', done, held') =
        finish-Held t node keys ((r.plan, used) ∷ []) (cancelled cause) held in
      called (finish t node (cancelled cause)) t' _ rounds done (
        cancel-Settled (record_outcome r spec (StepOutcome.cancelled cause)) t' i cause (some step)
          (step + 1) step rounds tables closing (noded, omega arith) (omega (arith, noded.0))
          (used, held', fresh) h)

  pub execute-Fares :
      (r : Runner) (t : Tree P) (i : Option Input) (step node rounds : ℕ) (queue : List Action)
      → Tabled r
      → r.after ≡ After.close
      → Noded r step
      → Nested r t node false (step + 1) (undoable_from r.independent step)
      → checks (length r.steps) (step + 1) < rounds
      → Fares rounds (execute diagnose contents r t i step node queue)
  unfolding execute
  execute-Fares r t i step node rounds queue tables closing noded nested h =
      let (spec, at) = get-below r.steps step noded.0 in
      through (get_elem? r.steps step) spec _ rounds at (elim (Option-cases (interrupts r spec)) [
        | inl quiet ↦
            rw quiet (advance-Fares r t i step node rounds spec queue tables closing noded nested h)
        | inr (cause, stops) ↦ rw stops (
            cancelled-Fares r t i step node rounds spec cause tables closing noded nested
              (omega (arith, h)))
      ])

  noted-Fares :
      (r : Runner) (t : Tree P) (step node rounds : ℕ) (spec : StepSpec) (queue : List Action)
      (outcome : Outcome)
      → Tabled r
      → r.after ≡ After.close
      → Noded r step
      → Nested r t node false (step + 1) (undoable_from r.independent step)
      → checks (length r.steps) (step + 1) + 5 < rounds
      → Fares rounds (noted diagnose contents r t step spec node queue outcome)
  unfolding noted
  noted-Fares r t step node rounds spec queue (Outcome.ok performed) tables closing noded nested h =
      (
        (
          Tabled-journaled r step (get_or r.journal step [] ++ performed.undo ∷ []) tables noded,
          (closing, noded, nested),
        ),
        tt,
        h,
      )
  noted-Fares r t step node rounds spec queue (Outcome.err Failure.cancelled) tables closing noded
        nested h =
      cancelled-Fares (record r { stopped = some (or_interrupted r.stopped) }) t none step node
        rounds spec (or_interrupted r.stopped) tables closing noded nested (omega (arith, h))
  noted-Fares r t step node rounds spec queue (Outcome.err failure) tables closing noded nested h =
      failed-Fares r t step node rounds spec [] failure tables closing noded nested
        (omega (arith, h))

  pub executed-Fares :
      (r : Runner) (t : Tree P) (i : Option Input) (step node rounds : ℕ) (queue : List Action)
      → Tabled r
      → r.after ≡ After.close
      → Noded r step
      → Nested r t node true (step + 1) (undoable_from r.independent step)
      → Answers Asked.outcome i
      → checks (length r.steps) (step + 1) + 5 < rounds
      → Fares rounds (executed diagnose contents r t i step node queue)
  unfolding executed
  executed-Fares r t i step node rounds queue tables closing noded (used, keys, fresh, free, busy)
        (outcome, answer) h =
      let (spec, at) = get-below r.steps step noded.0 in
      let links = (node, keys) ∷ (r.plan, used) ∷ [] in
      let (t', done, held) = acted-Held diagnose contents r t outcome links busy in
      through (answered i) outcome _ rounds answer (
        through (acted diagnose contents r t outcome) (record r { acting = none }, t') _ rounds done
          (through (get_elem? r.steps step) spec _ rounds at (
            noted-Fares (record r { acting = none }) t' step node rounds spec queue outcome tables
              closing noded (used, keys, fresh, free, held) h)))
