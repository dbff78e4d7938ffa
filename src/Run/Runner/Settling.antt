-- ===== src/Run/Runner/Settling.antt =====
-- Where `finish_or_commit`, `roll_back`, `roll_back_only`, `fail` and `cancel` of
-- crates/core/src/run/mod.rs leave the runner.
use Prim.Native.Nat.{◌*◌}
use mix.Base.{
  ℕ, zero, suc, ◌+◌, ◌≤◌, ◌<◌, List, [], ◌∷◌, Option, none, some, Bool, true, false, if◌then◌else◌,
  ◌≡◌, refl, arith, inl, inr, nat_eq, text_eq, contains, filter, all, length, Bool-cases,
}
use mix.Effect.Failure.{Failure}
use mix.Events.Message.{Cancellation}
use mix.Events.Tree.State.{Tree}
use mix.Events.Tree.Abandon.{below}
use mix.Run.Runner.{StepSpec, Input, Verdict, StepOutcome, After, Runner}
use mix.Run.Runner.Moves.{
  get_or_insert, is_nil, owned, finish_or_commit, roll_back, roll_back_only, fail, cancel,
  cancel_alone, caused, record_outcome,
}
use mix.Run.Runner.Rounds.{Turned}
use mix.Run.Runner.Keys.{PlanFresh, weakened}
use mix.Run.Runner.Tables.{Tabled-caused}
use mix.Run.Runner.Invariant.{
  Tabled, Noded, NodedIn, Ready, Planned, Fares, kept, undoable_in, undoable_from, resumes_at,
  behind, checks, Aimed,
}

length-filter-below : (p : ℕ → Bool) (n : ℕ) → length (filter p (below n)) ≤ n
unfolding below
length-filter-below p zero = omega arith
length-filter-below p (suc n) = ground (arith, length-filter-below p n)

contains-filter-below : (p : ℕ → Bool) (n j : ℕ) → n ≤ j → contains (filter p (below n)) j ≡ false
unfolding below
contains-filter-below p zero j h = refl
contains-filter-below p (suc n) j h =
    let rest = contains-filter-below p n j (omega (arith, h)) in ground (arith, rest, h)

kept_none : (after : After) (j : ℕ) → after ≡ After.close → kept after j ≡ false
kept_none after j e = rw e refl

Ready-filter-below :
    (count : ℕ) (nodes : List (Option ℕ)) (after : After) (p : ℕ → Bool) (n : ℕ)
    → ((j : ℕ) → p j ≡ true → NodedIn count nodes j)
    → after ≡ After.close
    → Ready count nodes after (filter p (below n))
unfolding below
Ready-filter-below count nodes after p zero noded closing = tt
Ready-filter-below count nodes after p (suc n) noded closing = elim (Bool-cases (p n)) [
  | inr skip ↦ rw skip (Ready-filter-below count nodes after p n noded closing)
  | inl takes ↦ rw takes (
    noded n takes,
    contains-filter-below p n n (omega arith),
    kept_none after n closing,
    Ready-filter-below count nodes after p n noded closing,
  )
]

abbrev pub Current : Runner → ℕ → Option ℕ → Type 0
Current r lo none = Unit
Current r lo (some step) = Noded r step × (lo ≤ step)

module _ {P : Type 0} where
  -- The runner goes around again, in good order.
  abbrev pub Settled : ℕ → Runner → Tree P → Option Input → Type 0
  Settled rounds r t i =
      Fares rounds (some (Turned.again (record { runner = r; tree = t; input = i })))

  pub either-Settled :
      (b : Bool) (x y : Runner) (t : Tree P) (i : Option Input) (rounds : ℕ)
      → (b ≡ true → Settled rounds x t i)
      → (b ≡ false → Settled rounds y t i)
      → Settled rounds (if b then x else y) t i
  either-Settled true x y t i rounds f g = f refl
  either-Settled false x y t i rounds f g = g refl

  pub finish_or_commit-Settled :
      (r : Runner) (t : Tree P) (i : Option Input) (from rounds : ℕ) (undoable : ℕ → Bool)
      → Tabled r
      → Planned r t from undoable
      → 1 < rounds
      → Settled rounds (finish_or_commit r) t i
  unfolding finish_or_commit
  finish_or_commit-Settled r t i from rounds undoable tables (used, held, fresh) h =
      elim (Bool-cases (all is_nil r.journal)) [
        | inl bare ↦ rw bare ((tables, (used, held)), tt, h)
        | inr rest ↦ rw rest ((tables, (used, held, fresh.reclaim_free, fresh.actions_free)), tt, h)
      ]

  pub roll_back_only-Settled :
      (r : Runner) (t : Tree P) (i : Option Input) (step rounds : ℕ) (after : After)
      → Tabled r
      → Noded r step
      → Aimed r after
      → Planned r t (resumes_at after (length r.steps)) (undoable_in (step ∷ []) after)
      → kept after step ≡ false
      → 3 + behind (length r.steps) after < rounds
      → Settled rounds (roll_back_only r step after) t i
  unfolding roll_back_only
  roll_back_only-Settled r t i step rounds after tables noded aimed (used, held, fresh) apart h =
      elim (Bool-cases (owned r step)) [
        | inl yes' ↦ rw yes' (
          (
            tables,
            ((aimed, (noded, refl, apart, tt), omega (arith, noded.0)), (used, held, fresh)),
          ),
          tt,
          omega (arith, h),
        )
        | inr no' ↦
            let lesser =
              weakened tables.keyed fresh r.performed (resumes_at after (length r.steps))
                (undoable_in [] after) (omega arith) (omega arith) (λ j l. ground (arith, l)) in
            rw no'
              ((tables, ((aimed, tt, omega arith), (used, held, lesser))), tt, omega (arith, h))
      ]

  pub roll_back-Settled :
      (r : Runner) (t : Tree P) (i : Option Input) (from rounds : ℕ) (undoable : ℕ → Bool)
      → Tabled r
      → r.after ≡ After.close
      → Planned r t from undoable
      → from ≤ length r.steps
      → ((j : ℕ) → undoable j ≡ true)
      → length r.steps * 3 + 2 < rounds
      → Settled rounds (roll_back r) t i
  unfolding roll_back below
  roll_back-Settled r t i from rounds undoable tables closing (used, held, fresh) f every h =
      let remaining = filter (owned r) (below (length r.steps)) in
      let short : length remaining ≤ length r.steps =
        length-filter-below (owned r) (length r.steps) in
      let lesser : PlanFresh r.steps used r.performed (length r.steps)
          (undoable_in remaining After.close) =
        weakened tables.keyed fresh r.performed (length r.steps) (undoable_in remaining After.close)
          (omega arith) f (λ j l. every j) in
      (
        (
          tables,
          (
            (
              rw closing tt,
              Ready-filter-below (length r.steps) r.nodes r.after (owned r) (length r.steps)
                  tables.noded closing,
              short,
            ),
            (used, held, rw closing lesser),
          ),
        ),
        tt,
        rw closing (omega (arith, short, h)),
      )

  pub fail-Settled :
      (r : Runner) (t : Tree P) (i : Option Input) (step rounds : ℕ) (spec : StepSpec)
      (failure : Failure)
      → Tabled r
      → r.after ≡ After.close
      → Noded r step
      → Planned r t (step + 1) (undoable_from r.independent step)
      → checks (length r.steps) (step + 1) + 4 < rounds
      → Settled rounds (fail r step spec failure) t i
  unfolding fail record_outcome caused
  fail-Settled r t i step rounds spec failure tables closing noded planned h =
      let r' = record_outcome (caused r step step) spec (StepOutcome.failed failure) in
      let failed = Verdict.failed spec.key failure in
      let tables' = Tabled-caused r step step tables noded.0 in
      let (used, held, fresh) = planned in
      either-Settled r.independent
        (roll_back_only (record r' { verdict = get_or_insert r'.verdict failed }) step
          (After.continue (step + 1)))
        (roll_back (record r' { verdict = some failed })) t i rounds
        (λ alone.
          let from : PlanFresh r.steps used r.performed (step + 1)
              (undoable_in (step ∷ []) (After.continue (step + 1))) =
            weakened tables.keyed fresh r.performed (step + 1)
              (undoable_in (step ∷ []) (After.continue (step + 1))) (omega arith) (omega arith)
              (λ j e. rw alone (ground (arith, e))) in
          roll_back_only-Settled (record r' { verdict = get_or_insert r'.verdict failed }) t i step
            rounds (After.continue (step + 1)) tables' noded (alone, omega (arith, noded.0))
            (used, held, from) (ground arith) (omega (arith, h)))
        (λ whole.
          roll_back-Settled (record r' { verdict = some failed }) t i (step + 1) rounds
            (undoable_from r.independent step) tables' closing planned (omega (arith, noded.0))
            (λ j. rw whole refl) (omega (arith, h)))

  -- Within an independent run.
  cancel_alone-Settled :
      (r : Runner) (t : Tree P) (i : Option Input) (step from lo rounds : ℕ)
      → Tabled r
      → r.independent ≡ true
      → Noded r step
      → lo ≤ step
      → from ≤ length r.steps
      → Planned r t from (undoable_from r.independent lo)
      → length r.steps * 3 + 2 < rounds
      → Settled rounds
          (if owned r step then roll_back_only r step After.commit else finish_or_commit r)
          t
          i
  cancel_alone-Settled r t i step from lo rounds tables alone noded low f (used, held, fresh) h =
      let fresh' : PlanFresh r.steps used r.performed (length r.steps)
          (undoable_in (step ∷ []) After.commit) =
        weakened tables.keyed fresh r.performed (length r.steps)
          (undoable_in (step ∷ []) After.commit) (omega arith) f
          (λ j e. rw alone (ground (arith, e, low))) in
      elim (Bool-cases (owned r step)) [
        | inl yes' ↦ rw yes' (
            roll_back_only-Settled r t i step rounds After.commit tables noded tt
              (used, held, fresh') refl (omega (arith, h, noded.0)))
        | inr no' ↦ rw no' (
            finish_or_commit-Settled r t i from rounds (undoable_from r.independent lo) tables
              (used, held, fresh) (omega (arith, h)))
      ]

  pub cancel-Settled :
      (r : Runner) (t : Tree P) (i : Option Input) (cause : Cancellation) (current : Option ℕ)
      (from lo rounds : ℕ)
      → Tabled r
      → r.after ≡ After.close
      → Current r lo current
      → from ≤ length r.steps
      → Planned r t from (undoable_from r.independent lo)
      → length r.steps * 3 + 2 < rounds
      → Settled rounds (cancel r cause current) t i
  unfolding cancel cancel_alone
  cancel-Settled r t i cause current from lo rounds tables closing at f planned h =
      let r' = record r { verdict = some (Verdict.cancelled cause) } in
      let settled : r.independent ≡ true → Settled rounds (cancel_alone r' current) t i = λ alone.
        elim current as (λ c. Current r lo c → Settled rounds (cancel_alone r' c) t i) [
          | none ↦ λ _.
              finish_or_commit-Settled r' t i from rounds (undoable_from r.independent lo) tables
                planned (omega (arith, h))
          | some step ↦ λ (noded, low).
              cancel_alone-Settled r' t i step from lo rounds tables alone noded low f planned h
        ]
          at in
      either-Settled r.independent (cancel_alone r' current) (roll_back r') t i rounds settled
        (λ whole.
          roll_back-Settled r' t i from rounds (undoable_from r.independent lo) tables closing
            planned f (λ j. rw whole refl) h)
