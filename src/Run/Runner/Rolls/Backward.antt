-- ===== src/Run/Runner/Rolls/Backward.antt =====
-- What each round of a rollback of crates/core/src/run/mod.rs performs.
use mix.Base.{
  ℕ, ◌+◌, List, [], ◌∷◌, ◌++◌, Option, none, some, true, false, if◌then◌else◌, ◌≡◌, refl, sym, ap,
  ◌∙◌, arith, nat_eq, get_or, get_elem?, length, Text,
}
use mix.Effect.Action.{Action}
use mix.Effect.Describe.{describe}
use mix.Effect.Failure.{Failure, Outcome}
use mix.Events.Message.{Diagnostic, Kind}
use mix.Events.Tree.State.{Tree, start, finish}
use mix.Events.Tree.Abandon.{succeeded, failed}
use mix.Run.Runner.{Input, After, Undoing, Phase, Runner}
use mix.Run.Runner.Rounds.{
  undoing_of, popped, popped_from, undone_runner, undone_step, rolled_back, expect, bare,
  action_key, rollback_key, answered, settled_verdict,
}
use mix.Run.Runner.Forward.{act, acted}
use mix.Run.Runner.Backward.{
  undo_noted, next_rollback, undo, undo_with, undone, close, rollback_diagnostic, warn_incomplete,
  verdict_ending,
}
use mix.Run.Runner.Turn.{turn_in, step}
use mix.Run.Runner.Invariant.{Phased, Ready}
use mix.Run.Runner.Rolls.{undo_of, pending, Unwinding, Rolls, undo_all, Rolls-bind, undo_all-forget}

module _ {P : Type 0} (diagnose : Failure → Diagnostic P)
    (contents : List (Diagnostic P) → List Text → P) where
  act-Rolls :
      (r : Runner) (t : Tree P) (node : ℕ) (action : Action) (actions : List Action)
      → ((performed : ℕ) (acting : Option ℕ)
          → Unwinding (record r { performed = performed; acting = acting }) r.phase)
      → ((performed : ℕ) (acting : Option ℕ)
          → actions
            ≡ action ∷ pending (record r { performed = performed; acting = acting }) r.phase)
      → Rolls actions (act diagnose contents r t node action)
  unfolding act
  act-Rolls r t node action actions unwinding e =
      let (operation, subject) = describe action in
      let s = bare (action_key (r.performed + 1)) (Kind.action operation subject) in
      Rolls-bind actions (expect (start t node s)) _
        (λ t' _. (unwinding (r.performed + 1) (some t.next), e (r.performed + 1) (some t.next)))

  next_rollback-Rolls :
      (r : Runner) (t : Tree P) (i : Option Input) (remaining : List ℕ)
      → r.after ≡ After.close
      → Ready (length r.steps) r.nodes r.after remaining
      → Rolls (undo_all r remaining) (next_rollback diagnose contents r t i remaining)
  unfolding next_rollback pending undoing_of rolled_back
  next_rollback-Rolls r t i [] closing ready = rw closing (tt, refl)
  next_rollback-Rolls r t i (step ∷ remaining) closing (noded, once, apart, rest) =
      let actions = undo_all r (step ∷ remaining) in
      Rolls-bind actions (get_elem? r.steps step) _ (λ spec _.
        Rolls-bind actions (get_or r.nodes step none) _ (λ undoes _.
          let s = record (bare (rollback_key spec.key) (Kind.rollback undoes)) {
            shielded = true;
          } in
          Rolls-bind actions (expect (start t r.plan s)) _ (λ t' _. (
            closing,
            ap (λ later. undo_of r.journal r.doubts step ++ later)
                (sym (undo_all-forget r step remaining once)),
          ))))

  pub acted-same :
      (r r' : Runner) (t t' : Tree P) (outcome : Outcome)
      → acted diagnose contents r t outcome ≡ some (r', t')
      → (r'.journal ≡ r.journal)
        × (r'.doubts ≡ r.doubts)
        × (r'.after ≡ r.after)
        × (r'.steps ≡ r.steps)
        × (r'.independent ≡ r.independent)
  unfolding acted
  acted-same r r' t t' outcome e = ground (arith, e)

  undo_noted-Rolls :
      (r : Runner) (t : Tree P) (remaining : List ℕ) (u : Undoing) (outcome : Outcome)
      → r.after ≡ After.close
      → Rolls
          (u.doubtful ++ u.queue ++ undo_all r remaining)
          (undo_noted diagnose contents r t remaining u outcome)
  unfolding undo_noted pending undone_runner undone_step
  undo_noted-Rolls r t remaining u outcome closing =
      Rolls-bind (u.doubtful ++ u.queue ++ undo_all r remaining) (get_elem? r.steps u.step) _
        (λ spec _. (closing, refl))

  undone-Rolls :
      (r : Runner) (t : Tree P) (i : Option Input) (remaining : List ℕ) (u : Undoing)
      → r.after ≡ After.close
      → Rolls
          (u.doubtful ++ u.queue ++ undo_all r remaining)
          (undone diagnose contents r t i remaining u)
  unfolding undone acted
  undone-Rolls r t i remaining u closing =
      let actions = u.doubtful ++ u.queue ++ undo_all r remaining in
      Rolls-bind actions (answered i) _ (λ outcome _.
        Rolls-bind {A = Runner × Tree P} actions (acted diagnose contents r t outcome) _ (λ ended e.
          let (r', t') = ended in
          let (journal, doubts, after, _, _) = acted-same r r' t t' outcome e in
          rw (← doubts, ← journal) (undo_noted-Rolls r' t' remaining u outcome (after ∙ closing))))

  undo_with-Rolls :
      (r : Runner) (t : Tree P) (i : Option Input) (remaining : List ℕ) (u : Undoing)
      (doubtful queue : List Action)
      → r.after ≡ After.close
      → Rolls
          (doubtful ++ queue ++ undo_all r remaining)
          (undo_with diagnose contents r t i remaining u (popped_from u doubtful queue))
  unfolding undo_with pending
  undo_with-Rolls r t i remaining u (action ∷ doubtful) queue closing =
      let u' = record u { doubtful = doubtful; queue = queue; doubting = true } in
      act-Rolls (record r { phase = Phase.rolling_back remaining (some u') true }) t u.node action
        (action ∷ (doubtful ++ queue ++ undo_all r remaining)) (λ _ _. closing) (λ _ _. refl)
  undo_with-Rolls r t i remaining u [] (action ∷ queue) closing =
      let u' = record u { doubtful = []; queue = queue; doubting = false } in
      act-Rolls (record r { phase = Phase.rolling_back remaining (some u') true }) t u.node action
        (action ∷ (queue ++ undo_all r remaining)) (λ _ _. closing) (λ _ _. refl)
  undo_with-Rolls r t i remaining u [] [] closing =
      let actions = undo_all r remaining in
      Rolls-bind actions (get_elem? r.steps u.step) _ (λ spec _.
        let e =
          if u.failed
          then failed (rollback_diagnostic diagnose contents r.report.rollback_failures spec.key)
          else succeeded in
        Rolls-bind actions (expect (finish t u.node e)) _ (λ t' _. (closing, refl)))

  close-Rolls :
      (r : Runner) (t : Tree P) (i : Option Input) → Rolls [] (close diagnose contents r t i)
  unfolding close
  close-Rolls r t i = Rolls-bind [] (warn_incomplete diagnose contents r t) _ (λ t' _.
      Rolls-bind []
        (expect (finish t' r.plan (verdict_ending diagnose contents (settled_verdict r)))) _
        (λ t'' _. refl))

  pub turn_in-Rolls :
      (r : Runner) (t : Tree P) (i : Option Input) (p : Phase)
      → Phased r t p
      → Unwinding r p
      → Rolls (pending r p) (turn_in diagnose contents r t i p)
  unfolding turn_in pending popped undo
  turn_in-Rolls r t i (Phase.rolling_back remaining none awaiting) (rolling, planned) closing =
      next_rollback-Rolls r t i remaining closing rolling.1
  turn_in-Rolls r t i (Phase.rolling_back remaining (some u) false) phased closing =
      undo_with-Rolls r t i remaining u u.doubtful u.queue closing
  turn_in-Rolls r t i (Phase.rolling_back remaining (some u) true) phased closing =
      undone-Rolls r t i remaining u closing
  turn_in-Rolls r t i Phase.closing phased unwinding = close-Rolls r t i
  turn_in-Rolls r t i Phase.opening phased unwinding = elim unwinding [ ]
  turn_in-Rolls r t i (Phase.checking _ _) phased unwinding = elim unwinding [ ]
  turn_in-Rolls r t i (Phase.executing _ _ _ _) phased unwinding = elim unwinding [ ]
  turn_in-Rolls r t i (Phase.committing _ _) phased unwinding = elim unwinding [ ]
  turn_in-Rolls r t i Phase.closed phased unwinding = elim unwinding [ ]
