-- ===== src/Run/Runner/Backward.antt =====
-- The arms of the loop of `step` of crates/core/src/run/mod.rs in which steps are rolled back, and the
-- changes committed.
use mix.Base.{
  ℕ, List, [], ◌∷◌, ◌++◌, Option, none, some, true, false, if◌then◌else◌, ◌==◌, nat_eq, text_eq,
  get_or, get_elem?, filter, map, length, Text, text,
}
use mix.Declared.Paths.{decimal}
use mix.Declared.State.{dedup}
use mix.Effect.Action.{Action}
use mix.Effect.Failure.{Failure, Outcome}
use mix.Events.Message.{Diagnostic, Kind, Severity, Verb}
use mix.Events.Tree.State.{Tree, Start, Ending, start, finish, warn}
use mix.Events.Tree.Abandon.{succeeded, cancelled, failed}
use mix.Run.Runner.{Input, Next, Verdict, Undoing, Phase, Runner}
use mix.Run.Runner.Moves.{is_nil, reclaims}
use mix.Run.Runner.Rounds.{
  go, code_rollback_incomplete, ◌>>=◌, Turned, expect, reclaim_key, rollback_key, answered, forget,
  undoing_of, bare, popped, noted_failure, undone_runner, undone_step, committed_runner,
  settled_verdict, rolled_back,
}
use mix.Run.Runner.Forward.{act, acted, acted_ending}

module _ {P : Type 0} (diagnose : Failure → Diagnostic P)
    (contents : List (Diagnostic P) → List Text → P) where
  unfoldable pub incomplete : List (Text × Failure) → Diagnostic P
  unfolding dedup
  incomplete failures = record {
    code = code_rollback_incomplete;
    severity = Severity.warning;
    node = 0;
    message = decimal (length failures) ++ text " undo action(s) failed";
    contents = contents (map (λ f. diagnose f.1) failures) (dedup (map (λ f. f.0) failures));
  }

  unfoldable pub rollback_diagnostic : List (Text × Failure) → Text → Diagnostic P
  unfolding incomplete
  rollback_diagnostic failures step = incomplete (filter (λ f. f.0 == step) failures)

  unfoldable pub next_rollback : Runner → Tree P → Option Input → List ℕ → Option (Turned P)
  unfolding start forget undoing_of rolled_back
  next_rollback r t i [] = some (go (rolled_back r r.after) t i)
  next_rollback r t i (step ∷ remaining) = get_elem? r.steps step >>= λ spec.
      get_or r.nodes step none >>= λ undoes.
      expect (
        start t r.plan
          (record (bare (rollback_key spec.key) (Kind.rollback undoes)) { shielded = true }))
      >>= λ t'. some (
          go
            (record (forget r step) {
              phase = Phase.rolling_back remaining (some (undoing_of r step t.next)) false;
            })
            t' i)

  unfoldable pub undo_with :
      Runner
      → Tree P
      → Option Input
      → List ℕ
      → Undoing
      → Option (Action × Undoing)
      → Option (Turned P)
  unfolding finish act rollback_diagnostic
  undo_with r t i remaining u (some (action, u')) =
      act diagnose contents (record r { phase = Phase.rolling_back remaining (some u') true }) t
        u.node action
  undo_with r t i remaining u none = get_elem? r.steps u.step >>= λ spec.
      expect (
        finish t u.node (
          if u.failed
          then failed (rollback_diagnostic r.report.rollback_failures spec.key)
          else succeeded))
      >>= λ t'. some (go (record r { phase = Phase.rolling_back remaining none false }) t' i)

  unfoldable pub undo : Runner → Tree P → Option Input → List ℕ → Undoing → Option (Turned P)
  unfolding undo_with popped
  undo r t i remaining u = undo_with r t i remaining u (popped u)

  -- Behind the end of an undo.
  unfoldable pub undo_noted : Runner → Tree P → List ℕ → Undoing → Outcome → Option (Turned P)
  unfolding undone_runner undone_step
  undo_noted r t remaining u outcome = get_elem? r.steps u.step >>= λ spec.
      (let noted = noted_failure u outcome in
        let u' = undone_step u noted in
        some (
          go
            (record (undone_runner r spec.key noted) {
              phase = Phase.rolling_back remaining (some u') false;
            })
            t none))

  unfoldable pub undone : Runner → Tree P → Option Input → List ℕ → Undoing → Option (Turned P)
  unfolding acted undo_noted
  undone r t i remaining u = answered i >>= λ outcome.
      acted diagnose contents r t outcome >>= λ (r', t'). undo_noted r' t' remaining u outcome

  abbrev pub reclaim_start : Start P
  reclaim_start = bare reclaim_key (Kind.step Verb.reclaiming (text "disk space"))

  unfoldable pub commit : Runner → Tree P → Option (Turned P)
  unfolding reclaims start act
  commit r t =
      if reclaims r
      then (expect (start t r.plan reclaim_start) >>= λ t'.
          act diagnose contents (record r { phase = Phase.committing true (some t.next) }) t' t.next
            Action.commit)
      else act diagnose contents (record r { phase = Phase.committing true none }) t r.plan
          Action.commit

  unfoldable pub end_reclaim : Runner → Tree P → Option ℕ → Outcome → Option (Tree P)
  unfolding finish
  end_reclaim r t none outcome = some t
  end_reclaim r t (some node) outcome =
      expect (finish t node (acted_ending diagnose contents outcome r.stopped))

  unfoldable pub warn_commit : Runner → Tree P → Outcome → Option (Tree P)
  unfolding warn
  warn_commit r t (Outcome.ok _) = some t
  warn_commit r t (Outcome.err Failure.cancelled) = some t
  warn_commit r t (Outcome.err failure) = expect (warn t r.plan (diagnose failure))

  unfoldable pub committed : Runner → Tree P → Option Input → Option ℕ → Option (Turned P)
  unfolding acted end_reclaim warn_commit committed_runner
  committed r t i reclaim = answered i >>= λ outcome.
      acted diagnose contents r t outcome >>= λ (r', t').
      end_reclaim r' t' reclaim outcome >>= λ t''. warn_commit r' t'' outcome >>= λ t'''.
      some (go (record (committed_runner r' outcome) { phase = Phase.closing }) t''' none)

  abbrev pub verdict_ending : Verdict → Ending P
  verdict_ending Verdict.succeeded = succeeded
  verdict_ending (Verdict.failed _ failure) = failed (diagnose failure)
  verdict_ending (Verdict.cancelled cause) = cancelled cause

  unfoldable pub warn_incomplete : Runner → Tree P → Option (Tree P)
  unfolding warn incomplete
  warn_incomplete r t =
      if is_nil r.report.rollback_failures
      then some t
      else expect (warn t r.plan (incomplete r.report.rollback_failures))

  unfoldable pub close : Runner → Tree P → Option Input → Option (Turned P)
  unfolding warn_incomplete finish
  close r t i =
      let verdict = settled_verdict r in
      warn_incomplete r t >>= λ t'. expect (finish t' r.plan (verdict_ending verdict)) >>= λ t''.
      some (
        Turned.yields Next.finished (record {
          runner = record r {
            verdict = none;
            report = record r.report { verdict = verdict };
            phase = Phase.closed;
          };
          tree = t'';
          input = none;
        }))
