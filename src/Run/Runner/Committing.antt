-- ===== src/Run/Runner/Committing.antt =====
-- The rounds of the loop of crates/core/src/run/mod.rs that commit the changes and close the plan.
use mix.Base.{
  ℕ, List, [], ◌∷◌, Option, none, some, true, false, ◌≡◌, refl, arith, inl, inr, contains, text_eq,
  Text, Bool-cases,
}
use mix.Effect.Action.{Action}
use mix.Effect.Failure.{Failure, Outcome}
use mix.Events.Message.{Diagnostic}
use mix.Events.Tree.State.{Tree, finish, start}
use mix.Run.Runner.{Input, Phase, Runner}
use mix.Run.Runner.Moves.{is_nil, reclaims}
use mix.Run.Runner.Rounds.{reclaim_key, answered, committed_runner, settled_verdict}
use mix.Run.Runner.Forward.{acted, acted_ending}
use mix.Run.Runner.Backward.{
  reclaim_start, end_reclaim, warn_commit, commit, committed, warn_incomplete, incomplete,
  verdict_ending, close,
}
use mix.Run.Runner.Chain.{Link, Held, after_start, start-Held, warn-Held, finish-Held}
use mix.Run.Runner.Keys.{ActionsFree}
use mix.Run.Runner.Settling.{Settled}
use mix.Run.Runner.Calling.{through, called, act-Held, acted-Held}
use mix.Run.Runner.Invariant.{Asked, Answers, Tabled, Busy, Phased, Fares}

module _ {P : Type 0} (diagnose : Failure → Diagnostic P)
    (contents : List (Diagnostic P) → List Text → P) where
  pub commit-Fares :
      (r : Runner) (t : Tree P) (rounds : ℕ) (used : List Text)
      → Tabled r
      → Held t ((r.plan, used) ∷ [])
      → contains used reclaim_key ≡ false
      → ActionsFree used r.performed
      → Fares rounds (commit diagnose contents r t)
  unfolding commit
  commit-Fares r t rounds used tables held unclaimed free = elim (Bool-cases (reclaims r)) [
    | inl yes' ↦
        let s = reclaim_start diagnose contents in
        let t' = after_start t r.plan s in
        let (e, held') = start-Held t r.plan used [] s held unclaimed in
        let r' = record r { phase = Phase.committing true (some t.next) } in
        rw yes' (
          called (start t r.plan s) t' _ rounds e (
            act-Held diagnose contents r' t' rounds t.next [] ((r.plan, reclaim_key ∷ used) ∷ [])
              Action.commit held' (λ m l. refl)
              (λ t'' id held''. (tables, (reclaim_key ∷ used, _, (id, refl, held'')))) refl))
    | inr no' ↦ rw no' (
        act-Held diagnose contents (record r { phase = Phase.committing true none }) t rounds r.plan
          used [] Action.commit held free (λ t' id held'. (tables, (_, (id, refl, held')))) refl)
  ]

  end_reclaim-Held :
      (r : Runner) (t : Tree P) (reclaim : Option ℕ) (outcome : Outcome)
      → Phased r t (Phase.committing true reclaim)
      → (used : List Text) × (links : List Link) × Busy r t true links
        × ((t' : Tree P)
            → Held t' links
            → (t'' : Tree P) × (end_reclaim diagnose contents
                  (record r { acting = none })
                  t'
                  reclaim
                  outcome
                ≡ some t'')
              × Held t'' ((r.plan, used) ∷ []))
  unfolding end_reclaim
  end_reclaim-Held r t none outcome (used, busy) =
      (used, (r.plan, used) ∷ [], busy, λ t' held. (t', refl, held))
  end_reclaim-Held r t (some node) outcome (used, keys, busy) = (
    used,
    (node, keys) ∷ (r.plan, used) ∷ [],
    busy,
    λ t' held.
        let e = acted_ending diagnose contents outcome r.stopped in
        let (t'', done, held') = finish-Held t' node keys ((r.plan, used) ∷ []) e held in
        (t'', rw done refl, held'),
  )

  warn_commit-Held :
      (r : Runner) (t : Tree P) (used : List Text) (outcome : Outcome)
      → Held t ((r.plan, used) ∷ [])
      → (t' : Tree P) × (warn_commit diagnose contents r t outcome ≡ some t')
        × Held t' ((r.plan, used) ∷ [])
  unfolding warn_commit
  warn_commit-Held r t used (Outcome.ok performed) held = (t, refl, held)
  warn_commit-Held r t used (Outcome.err Failure.cancelled) held = (t, refl, held)
  warn_commit-Held r t used (Outcome.err failure) held =
      let (t', done, held') = warn-Held t r.plan used [] (diagnose failure) held in
      (t', rw done refl, held')

  committed_runner-Phased :
      (r : Runner) (t : Tree P) (used : List Text) (outcome : Outcome)
      → Tabled r
      → Held t ((r.plan, used) ∷ [])
      → Settled 2 (record (committed_runner r outcome) { phase = Phase.closing }) t none
  unfolding committed_runner
  committed_runner-Phased r t used (Outcome.ok performed) tables held =
      ((tables, (used, held)), tt, omega arith)
  committed_runner-Phased r t used (Outcome.err Failure.cancelled) tables held =
      ((tables, (used, held)), tt, omega arith)
  committed_runner-Phased r t used (Outcome.err failure) tables held =
      ((tables, (used, held)), tt, omega arith)

  pub committed-Fares :
      (r : Runner) (t : Tree P) (i : Option Input) (reclaim : Option ℕ)
      → Tabled r
      → Phased r t (Phase.committing true reclaim)
      → Answers Asked.outcome i
      → Fares 2 (committed diagnose contents r t i reclaim)
  unfolding committed
  committed-Fares r t i reclaim tables phased (outcome, answer) =
      let r' = record r { acting = none } in
      let (used, links, busy, rest) = end_reclaim-Held r t reclaim outcome phased in
      let (t', acts, held') = acted-Held diagnose contents r t outcome links busy in
      let (t'', ends, held'') = rest t' held' in
      let (t''', warns, held''') = warn_commit-Held r' t'' used outcome held'' in
      through (answered i) outcome _ 2 answer (
        through (acted diagnose contents r t outcome) (r', t') _ 2 acts
          (through (end_reclaim diagnose contents r' t' reclaim outcome) t'' _ 2 ends (
            through (warn_commit diagnose contents r' t'' outcome) t''' _ 2 warns
              (committed_runner-Phased r' t''' used outcome tables held'''))))

  warn_incomplete-Held :
      (r : Runner) (t : Tree P) (used : List Text)
      → Held t ((r.plan, used) ∷ [])
      → (t' : Tree P) × (warn_incomplete diagnose contents r t ≡ some t')
        × Held t' ((r.plan, used) ∷ [])
  unfolding warn_incomplete
  warn_incomplete-Held r t used held = elim (Bool-cases (is_nil r.report.rollback_failures)) [
    | inl clean ↦ (t, rw clean refl, held)
    | inr left ↦
        let d = incomplete diagnose contents r.report.rollback_failures in
        let (t', done, held') = warn-Held t r.plan used [] d held in
        (t', rw left (rw done refl), held')
  ]

  pub close-Fares :
      (r : Runner) (t : Tree P) (i : Option Input) (rounds : ℕ) (used : List Text)
      → Tabled r
      → Held t ((r.plan, used) ∷ [])
      → Fares rounds (close diagnose contents r t i)
  unfolding close
  close-Fares r t i rounds used tables held =
      let (t', warns, held') = warn_incomplete-Held r t used held in
      let e = verdict_ending diagnose contents (settled_verdict r) in
      let (t'', done, _) = finish-Held t' r.plan used [] e held' in
      through (warn_incomplete diagnose contents r t) t' _ rounds warns
        (called (finish t' r.plan e) t'' _ rounds done ((tables, tt), refl))
