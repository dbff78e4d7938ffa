-- ===== src/Run/Runner/Rolling.antt =====
-- The rounds of the loop of crates/core/src/run/mod.rs in which steps are rolled back.
use Prim.Native.Nat.{◌*◌}
use mix.Base.{
  ℕ, suc, ◌+◌, ◌<◌, List, [], ◌∷◌, Option, none, some, true, false, if◌then◌else◌, ◌≡◌, refl, sym,
  ap, ◌∙◌, arith, inl, inr, ◌==◌, nat_eq, text_eq, contains, get_or, get_elem?, length, Text,
  Bool-cases, some_inj,
}
use mix.Effect.Action.{Action}
use mix.Effect.Failure.{Failure}
use mix.Events.Message.{Diagnostic, Kind}
use mix.Events.Tree.State.{Tree, finish, start}
use mix.Events.Tree.Abandon.{succeeded, failed}
use mix.Run.Runner.{Input, After, Undoing, Phase, Runner}
use mix.Run.Runner.Rounds.{
  action_key, rollback_key, bare, answered, popped, popped_from, undone_runner, undone_step,
  rolled_back,
}
use mix.Run.Runner.Forward.{acted}
use mix.Run.Runner.Backward.{
  undo_with, undo_noted, next_rollback, undo, undone, rollback_diagnostic,
}
use mix.Run.Runner.Chain.{after_start, start-Held, finish-Held}
use mix.Run.Runner.Keys.{PlanFresh, add_action, add_rollback, weakened}
use mix.Run.Runner.Tables.{Tabled-forget}
use mix.Run.Runner.Settling.{Settled, finish_or_commit-Settled}
use mix.Run.Runner.Calling.{get-below, through, called, act-Held, acted-Held}
use mix.Run.Runner.Invariant.{
  Asked, Answers, Tabled, Ready, Rolling, Planned, Nested, Fares, Aimed, kept, undoable_from,
  undoable_in, resumes_at, behind,
}

-- A step that is taken from what remains is not met again.
taken :
    (n : ℕ) (nodes : List (Option ℕ)) (after : After) (step : ℕ) (remaining : List ℕ)
    → Ready n nodes after (step ∷ remaining)
    → (j : ℕ) → undoable_in remaining after j ≡ true
    → (undoable_in (step ∷ remaining) after j ≡ true) × ((step == j) ≡ false)
taken n nodes after step remaining (noded, once, apart, ready) j e = elim (Bool-cases (step == j)) [
  | inr there ↦ (ground (arith, e, there), there)
  | inl here ↦
      let same = (nat_eq.same_iff step j).0 here in
      let a : contains remaining j ≡ false = ap (contains remaining) (sym same) ∙ once in
      let b : kept after j ≡ false = ap (kept after) (sym same) ∙ apart in
      absurd (ground (arith, e, a, b))
]

popped_from-same :
    (u : Undoing) (doubtful queue : List Action) (u' : Undoing) (action : Action)
    → popped_from u doubtful queue ≡ some (action, u')
    → (u'.step ≡ u.step) × (u'.node ≡ u.node)
popped_from-same u (a ∷ doubtful) queue u' action e =
    let same = ap (λ p. p.1) (some_inj e) in
    (sym (ap (λ u. u.step) same), sym (ap (λ u. u.node) same))
popped_from-same u [] (a ∷ queue) u' action e =
    let same = ap (λ p. p.1) (some_inj e) in
    (sym (ap (λ u. u.step) same), sym (ap (λ u. u.node) same))
popped_from-same u [] [] u' action e = absurd (cc)

popped-same :
    (u u' : Undoing) (action : Action)
    → popped u ≡ some (action, u')
    → (u'.step ≡ u.step) × (u'.node ≡ u.node)
unfolding popped
popped-same u u' action e = popped_from-same u u.doubtful u.queue u' action e

module _ {P : Type 0} where
  rolled_back-Settled :
      (r : Runner) (t : Tree P) (i : Option Input) (after : After) (rounds : ℕ)
      → Tabled r
      → Aimed r after
      → Planned r t (resumes_at after (length r.steps)) (undoable_in [] after)
      → behind (length r.steps) after < suc rounds
      → Settled rounds (rolled_back r after) t i
  unfolding rolled_back
  rolled_back-Settled r t i After.close rounds tables aimed (used, held, fresh) h =
      ((tables, (used, held)), tt, omega (arith, h))
  rolled_back-Settled r t i (After.continue next) rounds tables (alone, low) (used, held, fresh) h =
      let fresh' : PlanFresh r.steps used r.performed next (undoable_from r.independent next) =
        weakened tables.keyed fresh r.performed next (undoable_from r.independent next)
          (omega arith) (omega arith) (λ j e. rw alone at e) in
      ((tables, (refl, low, (used, held, fresh'))), tt, omega (arith, h))
  rolled_back-Settled r t i After.commit rounds tables aimed planned h =
      finish_or_commit-Settled (record r { after = After.close }) t i (length r.steps) rounds
        (undoable_in [] After.commit) tables planned (omega (arith, h))

module _ {P : Type 0} (diagnose : Failure → Diagnostic P)
    (contents : List (Diagnostic P) → List Text → P) where
  pub next_rollback-Fares :
      (r : Runner) (t : Tree P) (i : Option Input) (rounds : ℕ) (remaining : List ℕ)
      → Tabled r
      → Rolling r remaining
      → Planned r t (resumes_at r.after (length r.steps)) (undoable_in remaining r.after)
      → length remaining * 3 + behind (length r.steps) r.after < suc rounds
      → Fares rounds (next_rollback diagnose contents r t i remaining)
  unfolding next_rollback
  next_rollback-Fares r t i rounds [] tables (aimed, _, _) planned h =
      rolled_back-Settled r t i r.after rounds tables aimed planned (omega (arith, h))
  next_rollback-Fares r t i rounds (step ∷ remaining) tables (aimed, ready, short)
        (used, held, fresh) h =
      let (noded, once, apart, rest) = ready in
      let (low, undoes, started) = noded in
      let (spec, at) = get-below r.steps step low in
      let s = record (bare (rollback_key spec.key) (Kind.rollback undoes)) { shielded = true } in
      let free = fresh.rollbacks_free step spec (ground arith) at in
      let (e, held') = start-Held t r.plan used [] s held free in
      let fresh' =
        add_rollback tables.keyed fresh step spec (undoable_in remaining r.after) at
          (taken (length r.steps) r.nodes r.after step remaining ready) in
      through (get_elem? r.steps step) spec _ rounds at (
        through (get_or r.nodes step none) undoes _ rounds started (
          called (start t r.plan s) (after_start t r.plan s) _ rounds e (
            (
              Tabled-forget r step tables low,
              (
                (aimed, rest, omega (arith, short)),
                low,
                (rollback_key spec.key ∷ used, [], fresh', (λ m l. refl), held'),
              ),
            ),
            tt,
            omega (arith, h),
          )))

  undo_with-Fares :
      (r : Runner) (t : Tree P) (i : Option Input) (rounds : ℕ) (remaining : List ℕ) (u : Undoing)
      (next : Option (Action × Undoing))
      → ((action : Action) (u' : Undoing)
          → next ≡ some (action, u')
          → (u'.step ≡ u.step) × (u'.node ≡ u.node))
      → Tabled r
      → Rolling r remaining
      → u.step < length r.steps
      → Nested r t u.node false
          (resumes_at r.after (length r.steps))
          (undoable_in remaining r.after)
      → length remaining * 3 + behind (length r.steps) r.after < rounds
      → Fares rounds (undo_with diagnose contents r t i remaining u next)
  unfolding undo_with
  undo_with-Fares r t i rounds remaining u none same tables rolling low
        (used, keys, fresh, free, held) h =
      let (spec, at) = get-below r.steps u.step low in
      let e =
        if u.failed
        then failed (rollback_diagnostic diagnose contents r.report.rollback_failures spec.key)
        else succeeded in
      let (t', ended, held') = finish-Held t u.node keys ((r.plan, used) ∷ []) e held in
      through (get_elem? r.steps u.step) spec _ rounds at (
        called (finish t u.node e) t' _ rounds ended
          ((tables, (rolling, (used, held', fresh))), tt, h))
  undo_with-Fares r t i rounds remaining u (some (action, u')) same tables rolling low
        (used, keys, fresh, free, held) h =
      let (step, node) = same action u' refl in
      let phase = Phase.rolling_back remaining (some u') true in
      let fresh' =
        weakened tables.keyed fresh (r.performed + 1) (resumes_at r.after (length r.steps))
          (undoable_in remaining r.after) (omega arith) (omega arith) (λ j l. l) in
      let free' = add_action keys r.performed free in
      act-Held diagnose contents (record r { phase = phase }) t rounds u.node keys
        ((r.plan, used) ∷ []) action held free
        (λ t' id held'. (
          tables,
          (
            rolling,
            omega (arith, step, low),
            rw node (used, action_key (r.performed + 1) ∷ keys, fresh', free', (id, refl, held')),
          ),
        ))
        refl

  pub undo-Fares :
      (r : Runner) (t : Tree P) (i : Option Input) (rounds : ℕ) (remaining : List ℕ) (u : Undoing)
      → Tabled r
      → Rolling r remaining
      → u.step < length r.steps
      → Nested r t u.node false
          (resumes_at r.after (length r.steps))
          (undoable_in remaining r.after)
      → length remaining * 3 + behind (length r.steps) r.after < rounds
      → Fares rounds (undo diagnose contents r t i remaining u)
  unfolding undo
  undo-Fares r t i rounds remaining u tables rolling low nested h =
      undo_with-Fares r t i rounds remaining u (popped u) (λ action u' e. popped-same u u' action e)
        tables rolling low nested h

  pub undone-Fares :
      (r : Runner) (t : Tree P) (i : Option Input) (rounds : ℕ) (remaining : List ℕ) (u : Undoing)
      → Tabled r
      → Rolling r remaining
      → u.step < length r.steps
      → Nested r t u.node true (resumes_at r.after (length r.steps)) (undoable_in remaining r.after)
      → Answers Asked.outcome i
      → length remaining * 3 + behind (length r.steps) r.after + 1 < rounds
      → Fares rounds (undone diagnose contents r t i remaining u)
  unfolding undone undo_noted undone_runner undone_step
  undone-Fares r t i rounds remaining u tables rolling low (used, keys, fresh, free, busy)
        (outcome, answer) h =
      let (spec, at) = get-below r.steps u.step low in
      let (t', done, held) =
        acted-Held diagnose contents r t outcome ((u.node, keys) ∷ (r.plan, used) ∷ []) busy in
      through (answered i) outcome _ rounds answer (
        through (acted diagnose contents r t outcome) (record r { acting = none }, t') _ rounds done
          (through (get_elem? r.steps u.step) spec _ rounds at
            ((tables, (rolling, low, (used, keys, fresh, free, held))), tt, h)))
