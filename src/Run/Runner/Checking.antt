-- ===== src/Run/Runner/Checking.antt =====
-- The rounds of the loop of crates/core/src/run/mod.rs that open the plan and start its steps.
use mix.Base.{
  ℕ, suc, ◌+◌, ◌≤◌, ◌<◌, List, [], ◌∷◌, ◌++◌, Option, none, some, false, ◌≡◌, refl, ◌∙◌, arith, inl,
  inr, ◌==◌, nat_eq, text_eq, contains, get_elem?, set, length, map, Text, Bool-cases, Option-cases,
  some_inj,
}
use mix.Effect.Action.{Action}
use mix.Effect.Failure.{Failure}
use mix.Events.Message.{Cancellation, Diagnostic, Kind}
use mix.Events.Tree.State.{Open, Tree, get, finish, start, blocked, opened}
use mix.Events.Tree.Abandon.{already_satisfied, failed}
use mix.Events.Tree.Claims.{get-after_start}
use mix.Run.Runner.{Fallible, StepSpec, Input, Verdict, After, Runner}
use mix.Run.Runner.Moves.{
  is_nil, flattened, find_map, range, blocker, record_outcome, caused, get_or_insert,
}
use mix.Run.Runner.Rounds.{plan_key, bare, observed, resolved}
use mix.Run.Runner.Forward.{step_start, open_plan, ask, check_step, check, launch, begin}
use mix.Run.Runner.Chain.{Held, after_start, start-Held, start-ok, blocked-Held, finish-Held}
use mix.Run.Runner.Keys.{PlanFresh, add_step}
use mix.Run.Runner.Tables.{Tabled-caused, Tabled-numbered, Noded-numbered}
use mix.Run.Runner.Settling.{finish_or_commit-Settled, cancel-Settled, fail-Settled}
use mix.Run.Runner.Calling.{get-below, passed, through, called}
use mix.Run.Runner.Invariant.{
  Asked, Answers, Tabled, Noded, Planned, Nested, Fares, undoable_from, checks,
}

find_map-known :
    (causes : List (Option ℕ)) (n : ℕ) (dependencies : List ℕ) (c : ℕ)
    → ((d c : ℕ) → flattened (get_elem? causes d) ≡ some c → c < n)
    → find_map (λ d. flattened (get_elem? causes d)) dependencies ≡ some c
    → c < n
find_map-known causes n [] c known e = absurd (cc)
find_map-known causes n (d ∷ dependencies) c known e =
    elim (Option-cases (flattened (get_elem? causes d))) [
      | inl no' ↦ find_map-known causes n dependencies c known (rw no' at e)
      | inr (c', found) ↦
          let same : c' ≡ c = some_inj (rw found at e) in
          let low = known d c' found in omega (arith, same, low)
    ]

blocker-known :
    (r : Runner) (spec : StepSpec) (c : ℕ) → Tabled r → blocker r spec ≡ some c → c < length r.steps
unfolding blocker
blocker-known r spec c tables e = elim (Bool-cases (is_nil r.causes)) [
  | inl empty ↦ absurd (cc (rw empty at e))
  | inr kept ↦
      find_map-known r.causes (length r.steps) (spec.after ++ range spec.within) c tables.known
        (rw kept at e)
]

module _ {P : Type 0} (diagnose : Failure → Diagnostic P)
    (contents : List (Diagnostic P) → List Text → P) where
  pub open_plan-Fares :
      (r : Runner) (t : Tree P) (i : Option Input) (rounds : ℕ) (o : Open P)
      → Tabled r
      → get t.open_nodes r.parent ≡ some o
      → contains o.used plan_key ≡ false
      → r.parent < t.next
      → r.after ≡ After.close
      → checks (length r.steps) 0 < rounds
      → Fares rounds (open_plan diagnose contents r t i)
  unfolding open_plan
  open_plan-Fares r t i rounds o tables at free below closing h =
      let s = record (bare plan_key (Kind.plan [])) { planned = map (λ s. s.key) r.steps } in
      let t' = after_start t r.parent s in
      let held : Held t' ((t.next, []) ∷ []) = (
        opened r.parent s,
        get-after_start t r.parent s t.next ∙ ground arith,
        refl,
        refl,
        omega arith,
        below,
        tt,
        tt,
      ) in
      let fresh : PlanFresh r.steps [] r.performed 0 (undoable_from r.independent 0) = record {
        steps_free = λ j s h e. refl;
        rollbacks_free = λ j s h e. refl;
        reclaim_free = refl;
        actions_free = λ m h. refl;
      } in
      called (start t r.parent s) t' _ rounds (start-ok t r.parent s o at free)
        ((tables, (closing, omega arith, ([], held, fresh))), tt, h)

  ask-Fares :
      (r : Runner) (t : Tree P) (i : Option Input) (step rounds : ℕ) (spec : StepSpec)
      (cause : Option ℕ)
      → ((c : ℕ) → cause ≡ some c → c < length r.steps)
      → get_elem? r.steps step ≡ some spec
      → Tabled r
      → r.after ≡ After.close
      → step < length r.steps
      → Planned r t step (undoable_from r.independent step)
      → checks (length r.steps) (step + 1) < rounds
      → Fares rounds (ask diagnose contents r t i step spec cause)
  unfolding ask record_outcome caused
  ask-Fares r t i step rounds spec none known at tables closing low planned h =
      ((tables, (closing, low, planned)), refl)
  ask-Fares r t i step rounds spec (some cause) known at tables closing low (used, held, fresh) h =
      let (by, found) = get-below r.steps cause (known cause refl) in
      let free = fresh.steps_free step spec (omega arith) at in
      let (t', e, held') = blocked-Held t r.plan used [] spec.key by.key held free in
      let fresh' =
        passed tables.keyed step (step + 1) r.independent (add_step tables.keyed fresh spec at) in
      through (get_elem? r.steps cause) by _ rounds found (
        called (blocked t r.plan spec.key by.key) t' _ rounds e (
          (
            Tabled-caused r step cause tables (known cause refl),
            (closing, omega (arith, low), (spec.key ∷ used, held', fresh')),
          ),
          tt,
          h,
        ))

  check_step-Fares :
      (r : Runner) (t : Tree P) (i : Option Input) (step rounds : ℕ) (stopped : Option Cancellation)
      → Tabled r
      → r.after ≡ After.close
      → step < length r.steps
      → Planned r t step (undoable_from r.independent step)
      → checks (length r.steps) step < suc rounds
      → Fares rounds (check_step diagnose contents r t i step stopped)
  unfolding check_step
  check_step-Fares r t i step rounds (some cause) tables closing low planned h =
      cancel-Settled r t i cause none step step rounds tables closing tt (omega (arith, low))
        planned (omega (arith, h))
  check_step-Fares r t i step rounds none tables closing low planned h =
      let (spec, at) = get-below r.steps step low in
      through (get_elem? r.steps step) spec _ rounds at (
        ask-Fares r t i step rounds spec (blocker r spec) (λ c e. blocker-known r spec c tables e)
          at tables closing low planned (omega (arith, h, low)))

  pub check-Fares :
      (r : Runner) (t : Tree P) (i : Option Input) (step rounds : ℕ)
      → Tabled r
      → r.after ≡ After.close
      → step ≤ length r.steps
      → Planned r t step (undoable_from r.independent step)
      → checks (length r.steps) step < suc rounds
      → Fares rounds (check diagnose contents r t i step)
  unfolding check
  check-Fares r t i step rounds tables closing low planned h =
      elim (Bool-cases (step == length r.steps)) [
        | inl last ↦ rw last (
            finish_or_commit-Settled
              (record r { verdict = get_or_insert r.verdict Verdict.succeeded }) t i step rounds
              (undoable_from r.independent step) tables planned (omega (arith, h)))
        | inr more ↦ rw more (
            check_step-Fares r t i step rounds r.stopped tables closing (ground (arith, low, more))
              planned h)
      ]

  launch-Fares :
      (r : Runner) (t : Tree P) (step node rounds : ℕ) (spec : StepSpec)
      (actions : Fallible (List Action))
      → Tabled r
      → r.after ≡ After.close
      → Noded r step
      → Nested r t node false (step + 1) (undoable_from r.independent step)
      → checks (length r.steps) (step + 1) + 5 < rounds
      → Fares rounds (launch diagnose contents r t step spec node actions)
  unfolding launch record_outcome
  launch-Fares r t step node rounds spec (Fallible.err failure) tables closing noded
        (used, keys, fresh, free, held) h =
      let e = failed (diagnose failure) in
      let (t', done, held') = finish-Held t node keys ((r.plan, used) ∷ []) e held in
      called (finish t node e) t' _ rounds done (
        fail-Settled r t' none step rounds spec failure tables closing noded (used, held', fresh)
          (omega (arith, h)))
  launch-Fares r t step node rounds spec (Fallible.ok []) tables closing noded
        (used, keys, fresh, free, held) h =
      let (t', done, held') =
        finish-Held t node keys ((r.plan, used) ∷ []) already_satisfied held in
      called (finish t node already_satisfied) t' _ rounds done (
        (
          tables,
          (
            closing,
            omega (arith, noded.0),
            (used, held', passed tables.keyed step (step + 1) r.independent fresh),
          ),
        ),
        tt,
        omega (arith, h),
      )
  launch-Fares r t step node rounds spec (Fallible.ok (action ∷ actions)) tables closing noded
        nested h =
      ((tables, (closing, noded, nested)), tt, omega (arith, h))

  pub begin-Fares :
      (r : Runner) (t : Tree P) (i : Option Input) (step rounds : ℕ)
      → Tabled r
      → r.after ≡ After.close
      → step < length r.steps
      → Planned r t step (undoable_from r.independent step)
      → Answers Asked.facts i
      → checks (length r.steps) (step + 1) + 5 < rounds
      → Fares rounds (begin diagnose contents r t i step)
  unfolding begin
  begin-Fares r t i step rounds tables closing low (used, held, fresh) (facts, answer) h =
      let (spec, at) = get-below r.steps step low in
      let s = step_start diagnose contents spec in
      let free = fresh.steps_free step spec (omega arith) at in
      let (e, held') = start-Held t r.plan used [] s held free in
      let r' = record r { nodes = set r.nodes step (some t.next) } in
      through (observed i) facts _ rounds answer (
        through (get_elem? r.steps step) spec _ rounds at (
          called (start t r.plan s) (after_start t r.plan s) _ rounds e (
            launch-Fares r' (after_start t r.plan s) step t.next rounds spec (resolved spec facts)
              (Tabled-numbered r step t.next tables low) closing
              (Noded-numbered r step t.next tables low)
              (spec.key ∷ used, [], add_step tables.keyed fresh spec at, (λ m l. refl), held') h)))
