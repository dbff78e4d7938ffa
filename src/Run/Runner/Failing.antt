-- ===== src/Run/Runner/Failing.antt =====
-- A run of crates/core/src/run/mod.rs whose steps depend on each other: an action that fails has
-- everything undone.
use mathlib.Core.Path.{subst}
use mix.Base.{
  zero, suc, flat_map, ◌++◌, Eq, ℕ, ◌≤◌, List, [], ◌∷◌, ap, arith, any, ◌==◌, nat_eq, get_or,
  Bool-cases, inl, inr, some, true, false, ◌≡◌, refl, sym, ◌∙◌, filter, get_elem?, length, Text,
}
use mix.Effect.Action.{Action}
use mix.Effect.Failure.{Failure, Outcome}
use mix.Events.Message.{Diagnostic}
use mix.Events.Tree.State.{Tree, finish}
use mix.Events.Tree.Abandon.{below, cancelled, failed}
use mix.Run.Runner.{StepSpec, Input, After, Doubt, Phase, Runner}
use mix.Run.Rollback.{rollback_order}
use mix.Run.Runner.Moves.{is_nil, owned, fail, cancel, caused, record_outcome, roll_back}
use mix.Run.Runner.Rounds.{expect, or_interrupted}
use mix.Run.Runner.Forward.{executed, noted, acted}
use mix.Run.Runner.Turn.{turn_in, turn, step}
use mix.Run.Runner.Rolls.{undo_of, undo_all, pending, Rolls, Rolls-bind}
use mix.Run.Runner.Rolls.Backward.{acted-same}
use mix.Run.Runner.Undone.{performs, performs-Rolls}
use mix.Run.Runner.Keys.{Keyed}
use mix.Run.Runner.Sessions.{runner_of, Driven, Entered, runner_of-Driven}
use mix.Run.Runner.Invariant.{Asked, Phased}

-- The steps that `roll_back` finds, the last first.
unfoldable to_undo : Runner → List ℕ
unfolding below
to_undo r = filter (owned r) (below (length r.steps))

abbrev last_first : ℕ → List ℕ
last_first zero = []
last_first (suc n) = n ∷ last_first n

-- All the undo of a run, the last step first: of each step what is in doubt, each doubt in rollback
-- order, and then its journal in rollback order.
unfoldable pub all_undo : Runner → List Action
all_undo r =
    flat_map
      (λ step.
        flat_map (λ d. rollback_order (d.undo ∷ [])) (filter (λ d. d.step == step) r.doubts)
        ++ rollback_order (get_or r.journal step []))
      (last_first (length r.steps))

below-last_first : (n : ℕ) → below n ≡ last_first n
unfolding below
below-last_first zero = refl
below-last_first (suc n) = ap (λ l. n ∷ l) (below-last_first n)

filter-doubts :
    (doubts : List Doubt) (step : ℕ)
    → any (λ d. d.step == step) doubts ≡ false
    → filter (λ d. d.step == step) doubts ≡ []
filter-doubts [] step h = refl
filter-doubts (d ∷ doubts) step h = ground (arith, h, filter-doubts doubts step)

empty-undo : (undo : List (List Action)) → is_nil undo ≡ true → rollback_order undo ≡ []
unfolding rollback_order mix.Run.Rollback.place_entries
empty-undo [] h = refl
empty-undo (x ∷ undo) h = absurd (cc)

-- Of a step that is passed over there is nothing to undo.
undo_of-unowned :
    (r : Runner) (step : ℕ) → owned r step ≡ false → undo_of r.journal r.doubts step ≡ []
undo_of-unowned r step h =
    let doubts = filter-doubts r.doubts step (ground (arith, h)) in
    let journal = empty-undo (get_or r.journal step []) (ground (arith, h)) in
    rw (doubts, journal) refl

undo_all-owned :
    (r : Runner) (steps : List ℕ) → undo_all r (filter (owned r) steps) ≡ undo_all r steps
undo_all-owned r [] = refl
undo_all-owned r (step ∷ steps) = elim (Bool-cases (owned r step)) [
  | inl is ↦ rw (is, undo_all-owned r steps) refl
  | inr other ↦ rw (other, undo_of-unowned r step other) (undo_all-owned r steps)
]

to_undo-all : (r : Runner) → undo_all r (to_undo r) ≡ all_undo r
unfolding to_undo all_undo
to_undo-all r =
    undo_all-owned r (below (length r.steps)) ∙ ap (undo_all r) (below-last_first (length r.steps))

module _ {P : Type 0} (diagnose : Failure → Diagnostic P)
    (contents : List (Diagnostic P) → List Text → P) where
  noted-Rolls :
      (r : Runner) (t : Tree P) (step node : ℕ) (spec : StepSpec) (queue : List Action)
      (failure : Failure)
      → r.after ≡ After.close
      → r.independent ≡ false
      → Rolls
          (undo_all r (to_undo r))
          (noted diagnose contents r t step spec node queue (Outcome.err failure))
  unfolding noted fail cancel roll_back caused record_outcome pending to_undo below
  noted-Rolls r t step node spec queue Failure.cancelled closing whole =
      Rolls-bind (undo_all r (to_undo r))
        (expect (finish t node (cancelled (or_interrupted r.stopped)))) _
        (λ t' _. rw whole (closing, refl))
  noted-Rolls r t step node spec queue failure closing whole =
      Rolls-bind (undo_all r (to_undo r)) (expect (finish t node (failed (diagnose failure)))) _
        (λ t' _. rw whole (closing, refl))

  executed-Rolls :
      (r : Runner) (t : Tree P) (step node : ℕ) (queue : List Action) (failure : Failure)
      → r.after ≡ After.close
      → r.independent ≡ false
      → Rolls
          (undo_all r (to_undo r))
          (executed diagnose contents r t (some (Input.done (Outcome.err failure))) step node queue)
  unfolding executed acted to_undo
  executed-Rolls r t step node queue failure closing whole =
      let actions = undo_all r (to_undo r) in
      Rolls-bind {A = Runner × Tree P} actions (acted diagnose contents r t (Outcome.err failure)) _
        (λ ended e.
          let (r', t') = ended in
          let (journal, doubts, after, steps, alone) =
            acted-same diagnose contents r r' t t' (Outcome.err failure) e in
          rw (← doubts, ← journal, ← steps)
            (Rolls-bind (undo_all r' (to_undo r')) (get_elem? r'.steps step) _ (λ spec _.
              noted-Rolls r' t' step node spec queue failure (after ∙ closing) (alone ∙ whole))))

module _ {P : Type 0} ⦃eq : Eq P⦄ (diagnose : Failure → Diagnostic P)
    (contents : List (Diagnostic P) → List Text → P) where
  -- In a run whose steps depend on each other, whose keys differ and none of which is the runner's
  -- own, under an open parent without a plan, an action of a step that fails or is cancelled is
  -- followed by the undo of every step, the last step first: of each step what is in doubt, and then
  -- its journal in rollback order. All of it is performed, whatever comes of each undo, and then the
  -- run finishes. Up to the failure the driver makes the calls of `Driven`, and from there on it only
  -- answers, at least once for each undo.
  pub performs-failure :
      (parent : ℕ) (steps : List StepSpec) (t₀ : Tree P)
      → Keyed steps
      → Entered parent t₀
      → (r : Runner) (t : Tree P) (step node : ℕ) (queue : List Action) (failure : Failure)
        (outcomes : List Outcome)
      → Driven diagnose contents (runner_of false parent steps) t₀ Asked.outcome r t
      → r.independent ≡ false
      → r.phase ≡ Phase.executing step node queue true
      → length (all_undo r) ≤ length outcomes
      → performs diagnose contents
          (record { runner = r; tree = t; input = some (Input.done (Outcome.err failure)) })
          outcomes
        ≡ (all_undo r, true)
  unfolding turn turn_in
  performs-failure parent steps t₀ keyed entered r t step node queue failure outcomes driven whole
        phase h =
      let (good, waits) =
        runner_of-Driven diagnose contents false parent steps t₀ Asked.outcome r t keyed entered
          driven in
      let (closing, _, _) = subst (λ p. Phased r t p) phase good.1 in
      let i = some (Input.done (Outcome.err failure)) in
      let actions = undo_all r (to_undo r) in
      let enough : length actions ≤ length outcomes =
        subst (λ as'. length as' ≤ length outcomes) (sym (to_undo-all r)) h in
      performs-Rolls diagnose contents (record { runner = r; tree = t; input = i }) actions outcomes
        good (rw waits (Outcome.err failure, refl))
        (subst (λ p. Rolls actions (turn_in diagnose contents r t i p)) (sym phase)
          (executed-Rolls diagnose contents r t step node queue failure closing whole))
        enough
      ∙ ap (λ as'. (as', true)) (to_undo-all r)
