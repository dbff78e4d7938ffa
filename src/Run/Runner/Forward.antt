-- ===== src/Run/Runner/Forward.antt =====
-- The arms of the loop of `step` of crates/core/src/run/mod.rs in which a run goes on with its steps.
-- A panic is `none`. `diagnose` is `diagnostic` of crates/core/src/report/diagnose.rs, `contents` packs
-- the causes and the detail of a diagnostic.
use mix.Base.{
  ℕ, ◌+◌, List, [], ◌∷◌, ◌++◌, Option, none, some, true, false, if◌then◌else◌, ◌==◌, nat_eq,
  text_eq, get_or, get_elem?, set, map, length, Text,
}
use mix.Effect.Action.{Action}
use mix.Effect.Describe.{describe}
use mix.Effect.Failure.{Failure, Outcome}
use mix.Events.Message.{Cancellation, Diagnostic, Kind}
use mix.Events.Tree.State.{Tree, Start, Ending, start, blocked, finish}
use mix.Events.Tree.Abandon.{succeeded, already_satisfied, cancelled, failed}
use mix.Run.Runner.{Fallible, StepSpec, Input, Next, Verdict, StepOutcome, Phase, Runner}
use mix.Run.Runner.Moves.{
  get_or_insert, record_outcome, caused, blocker, finish_or_commit, fail, cancel,
}
use mix.Run.Runner.Rounds.{
  go, ◌>>=◌, Turned, expect, plan_key, action_key, answered, observed, resolved, or_interrupted,
  bare, interrupts,
}

module _ {P : Type 0} (diagnose : Failure → Diagnostic P)
    (contents : List (Diagnostic P) → List Text → P) where
  unfoldable pub act : Runner → Tree P → ℕ → Action → Option (Turned P)
  unfolding action_key describe start
  act r t parent action =
      let (operation, subject) = describe action in
      let performed = r.performed + 1 in
      expect (start t parent (bare (action_key performed) (Kind.action operation subject)))
      >>= λ t'. some (
          Turned.yields (Next.perform action) (record {
            runner = record r { performed = performed; acting = some t.next };
            tree = t';
            input = none;
          }))

  abbrev pub acted_ending : Outcome → Option Cancellation → Ending P
  acted_ending (Outcome.ok _) cause = succeeded
  acted_ending (Outcome.err Failure.cancelled) cause = cancelled (or_interrupted cause)
  acted_ending (Outcome.err failure) cause = failed (diagnose failure)

  unfoldable pub acted : Runner → Tree P → Outcome → Option (Runner × Tree P)
  unfolding finish
  acted r t outcome = elim r.acting [
    | none ↦ some (r, t)
    | some node ↦ expect (finish t node (acted_ending outcome r.stopped)) >>= λ t'.
        some (record r { acting = none }, t')
  ]

  unfoldable pub open_plan : Runner → Tree P → Option Input → Option (Turned P)
  unfolding start
  open_plan r t i =
      let plan = record (bare plan_key (Kind.plan [])) { planned = map (λ s. s.key) r.steps } in
      expect (start t r.parent plan) >>= λ t'.
      some (go (record r { plan = t.next; phase = Phase.checking 0 false }) t' i)

  -- A step is observed, unless it waits on one that failed.
  unfoldable pub ask : Runner → Tree P → Option Input → ℕ → StepSpec → Option ℕ → Option (Turned P)
  unfolding blocked caused record_outcome
  ask r t i step spec none = some (
      Turned.yields (Next.observe spec.queries)
        (record { runner = record r { phase = Phase.checking step true }; tree = t; input = none }))
  ask r t i step spec (some cause) = get_elem? r.steps cause >>= λ by.
      expect (blocked t r.plan spec.key by.key) >>= λ t'. some (
        go
          (record (record_outcome (caused r step cause) spec (StepOutcome.blocked by.key)) {
            phase = Phase.checking (step + 1) false;
          })
          t' i)

  unfoldable pub check_step :
      Runner → Tree P → Option Input → ℕ → Option Cancellation → Option (Turned P)
  unfolding cancel blocker ask
  check_step r t i step (some cause) = some (go (cancel r cause none) t i)
  check_step r t i step none =
      get_elem? r.steps step >>= λ spec. ask r t i step spec (blocker r spec)

  unfoldable pub check : Runner → Tree P → Option Input → ℕ → Option (Turned P)
  unfolding finish_or_commit check_step
  check r t i step =
      if step == length r.steps
      then some (
          go (finish_or_commit (record r { verdict = get_or_insert r.verdict Verdict.succeeded })) t
            i)
      else check_step r t i step r.stopped

  abbrev pub step_start : StepSpec → Start P
  step_start spec = record (bare spec.key (Kind.step spec.title.verb spec.title.subject)) {
    shielded = spec.shielded;
  }

  -- What is done with the actions of a step whose node has been started.
  unfoldable pub launch :
      Runner → Tree P → ℕ → StepSpec → ℕ → Fallible (List Action) → Option (Turned P)
  unfolding finish fail record_outcome
  launch r t step spec node (Fallible.err failure) =
      expect (finish t node (failed (diagnose failure))) >>= λ t'.
      some (go (fail r step spec failure) t' none)
  launch r t step spec node (Fallible.ok []) = expect (finish t node already_satisfied) >>= λ t'.
      some (
        go
          (record (record_outcome r spec StepOutcome.satisfied) {
            phase = Phase.checking (step + 1) false;
          })
          t' none)
  launch r t step spec node (Fallible.ok (action ∷ actions)) =
      some (go (record r { phase = Phase.executing step node (action ∷ actions) false }) t none)

  unfoldable pub begin : Runner → Tree P → Option Input → ℕ → Option (Turned P)
  unfolding start launch resolved
  begin r t i step = observed i >>= λ facts. get_elem? r.steps step >>= λ spec.
      expect (start t r.plan (step_start spec)) >>= λ t'.
      launch (record r { nodes = set r.nodes step (some t.next) }) t' step spec t.next
        (resolved spec facts)

  unfoldable pub advance :
      Runner → Tree P → Option Input → ℕ → StepSpec → ℕ → List Action → Option (Turned P)
  unfolding finish record_outcome act
  advance r t i step spec node [] = expect (finish t node succeeded) >>= λ t'. some (
      go
        (record (record_outcome r spec StepOutcome.changed) {
          phase = Phase.checking (step + 1) false;
        })
        t' i)
  advance r t i step spec node (action ∷ queue) =
      act (record r { phase = Phase.executing step node queue true }) t node action

  unfoldable pub execute : Runner → Tree P → Option Input → ℕ → ℕ → List Action → Option (Turned P)
  unfolding finish record_outcome cancel advance
  execute r t i step node queue = get_elem? r.steps step >>= λ spec. elim (interrupts r spec) [
    | none ↦ advance r t i step spec node queue
    | some cause ↦ expect (finish t node (cancelled cause)) >>= λ t'.
        some
          (go (cancel (record_outcome r spec (StepOutcome.cancelled cause)) cause (some step)) t' i)
  ]

  -- Behind the end of an action.
  unfoldable pub noted :
      Runner → Tree P → ℕ → StepSpec → ℕ → List Action → Outcome → Option (Turned P)
  unfolding finish record_outcome cancel fail
  noted r t step spec node queue (Outcome.ok performed) = some (
      go
        (record r {
          journal = set r.journal step (get_or r.journal step [] ++ performed.undo ∷ []);
          phase = Phase.executing step node queue false;
        })
        t none)
  noted r t step spec node queue (Outcome.err Failure.cancelled) =
      let cause = or_interrupted r.stopped in
      expect (finish t node (cancelled cause)) >>= λ t'. some (
        go
          (cancel
            (record_outcome (record r { stopped = some cause }) spec (StepOutcome.cancelled cause))
            cause (some step))
          t' none)
  noted r t step spec node queue (Outcome.err failure) =
      expect (finish t node (failed (diagnose failure))) >>= λ t'.
      some (go (fail r step spec failure) t' none)

  unfoldable pub executed : Runner → Tree P → Option Input → ℕ → ℕ → List Action → Option (Turned P)
  unfolding acted noted
  executed r t i step node queue = answered i >>= λ outcome. acted r t outcome >>= λ (r', t').
      get_elem? r.steps step >>= λ spec. noted r' t' step spec node queue outcome
