-- ===== src/Run/Runner/Quiet/Backward.antt =====
-- The rounds of a stopped run that roll back, commit and close (crates/core/src/run/mod.rs).
use mix.Base.{
  ℕ, List, [], ◌∷◌, Option, none, some, true, if◌then◌else◌, ◌≡◌, refl, ap, ◌∙◌, inl, inr, nat_eq,
  get_or, get_elem?, Text, is_some, Bool-cases,
}
use mix.Effect.Action.{Action}
use mix.Effect.Failure.{Failure, Outcome}
use mix.Events.Message.{Diagnostic, Kind}
use mix.Events.Tree.State.{Tree, start, finish}
use mix.Events.Tree.Abandon.{succeeded, failed}
use mix.Run.Runner.{Input, Undoing, Phase, Runner}
use mix.Run.Runner.Moves.{reclaims}
use mix.Run.Runner.Rounds.{
  expect, undone_runner, forget, bare, rollback_key, answered, committed_runner, settled_verdict,
}
use mix.Run.Runner.Forward.{acted}
use mix.Run.Runner.Backward.{
  next_rollback, undo_with, undone, undo_noted, reclaim_start, rollback_diagnostic, end_reclaim,
  warn_commit, warn_incomplete, verdict_ending, commit, committed, close,
}
use mix.Run.Runner.Turn.{step}
use mix.Run.Runner.Quiet.{Quiet, stopped-rolled_back, Quiet-bind, act-Quiet, acted-stopped}

module _ {P : Type 0} (diagnose : Failure → Diagnostic P)
    (contents : List (Diagnostic P) → List Text → P) where
  pub next_rollback-Quiet :
      (r : Runner) (t : Tree P) (i : Option Input) (remaining : List ℕ)
      → is_some r.stopped ≡ true
      → Quiet (next_rollback diagnose contents r t i remaining)
  unfolding next_rollback forget
  next_rollback-Quiet r t i [] h = ap is_some (stopped-rolled_back r r.after) ∙ h
  next_rollback-Quiet r t i (step ∷ remaining) h = Quiet-bind (get_elem? r.steps step) _ (λ spec _.
      Quiet-bind (get_or r.nodes step none) _ (λ undoes _.
        let s = record (bare (rollback_key spec.key) (Kind.rollback undoes)) { shielded = true } in
        Quiet-bind (expect (start t r.plan s)) _ (λ t' _. h)))

  pub undo_with-Quiet :
      (r : Runner) (t : Tree P) (i : Option Input) (remaining : List ℕ) (u : Undoing)
      (next : Option (Action × Undoing))
      → is_some r.stopped ≡ true
      → Quiet (undo_with diagnose contents r t i remaining u next)
  unfolding undo_with
  undo_with-Quiet r t i remaining u (some (action, u')) h =
      act-Quiet diagnose contents (record r { phase = Phase.rolling_back remaining (some u') true })
        t u.node action h
  undo_with-Quiet r t i remaining u none h = Quiet-bind (get_elem? r.steps u.step) _ (λ spec _.
      let e =
        if u.failed
        then failed (rollback_diagnostic diagnose contents r.report.rollback_failures spec.key)
        else succeeded in
      Quiet-bind (expect (finish t u.node e)) _ (λ t' _. h))

  undo_noted-Quiet :
      (r : Runner) (t : Tree P) (remaining : List ℕ) (u : Undoing) (outcome : Outcome)
      → is_some r.stopped ≡ true
      → Quiet (undo_noted diagnose contents r t remaining u outcome)
  unfolding undo_noted undone_runner
  undo_noted-Quiet r t remaining u outcome h = Quiet-bind (get_elem? r.steps u.step) _ (λ spec _. h)

  pub undone-Quiet :
      (r : Runner) (t : Tree P) (i : Option Input) (remaining : List ℕ) (u : Undoing)
      → is_some r.stopped ≡ true
      → Quiet (undone diagnose contents r t i remaining u)
  unfolding undone
  undone-Quiet r t i remaining u h = Quiet-bind (answered i) _ (λ outcome _.
      Quiet-bind {A = Runner × Tree P} (acted diagnose contents r t outcome) _ (λ ended e.
        let (r', t') = ended in
        undo_noted-Quiet r' t' remaining u outcome
          (ap is_some (acted-stopped diagnose contents r r' t t' outcome e) ∙ h)))

  pub commit-Quiet :
      (r : Runner) (t : Tree P) → is_some r.stopped ≡ true → Quiet (commit diagnose contents r t)
  unfolding commit
  commit-Quiet r t h = elim (Bool-cases (reclaims r)) [
    | inl yes' ↦ rw yes' (
        Quiet-bind (expect (start t r.plan (reclaim_start diagnose contents))) _ (λ t' _.
          act-Quiet diagnose contents (record r { phase = Phase.committing true (some t.next) }) t'
            t.next Action.commit h))
    | inr no' ↦ rw no' (
        act-Quiet diagnose contents (record r { phase = Phase.committing true none }) t r.plan
          Action.commit h)
  ]

  committed_runner-stopped :
      (r : Runner) (outcome : Outcome)
      → is_some r.stopped ≡ true
      → is_some (committed_runner r outcome).stopped ≡ true
  unfolding committed_runner
  committed_runner-stopped r (Outcome.ok performed) h = h
  committed_runner-stopped r (Outcome.err Failure.cancelled) h = refl
  committed_runner-stopped r (Outcome.err failure) h = h

  pub committed-Quiet :
      (r : Runner) (t : Tree P) (i : Option Input) (reclaim : Option ℕ)
      → is_some r.stopped ≡ true
      → Quiet (committed diagnose contents r t i reclaim)
  unfolding committed
  committed-Quiet r t i reclaim h = Quiet-bind (answered i) _ (λ outcome _.
      Quiet-bind {A = Runner × Tree P} (acted diagnose contents r t outcome) _ (λ ended e.
        let (r', t') = ended in
        let h' : is_some r'.stopped ≡ true =
          ap is_some (acted-stopped diagnose contents r r' t t' outcome e) ∙ h in
        Quiet-bind (end_reclaim diagnose contents r' t' reclaim outcome) _ (λ ended' _.
          Quiet-bind (warn_commit diagnose contents r' ended' outcome) _
            (λ warned _. committed_runner-stopped r' outcome h'))))

  pub close-Quiet :
      (r : Runner) (t : Tree P) (i : Option Input)
      → is_some r.stopped ≡ true
      → Quiet (close diagnose contents r t i)
  unfolding close
  close-Quiet r t i h =
      let e = verdict_ending diagnose contents (settled_verdict r) in
      Quiet-bind (warn_incomplete diagnose contents r t) _
        (λ t' _. Quiet-bind (expect (finish t' r.plan e)) _ (λ _ _. (refl, h)))
