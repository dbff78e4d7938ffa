-- ===== src/Run/Runner/Invariant.antt =====
-- What holds between two rounds of the loop of crates/core/src/run/mod.rs, and how many rounds are
-- left until it returns to the driver.
use Prim.Native.Nat.{◌*◌}
use mix.Base.{
  ℕ, ◌+◌, ◌-◌, ◌≤◌, ◌<◌, List, [], ◌∷◌, Option, none, some, Bool, true, false, ◌||◌, ◌≡◌, nat_eq,
  text_eq, contains, get_or, get_elem?, leb, length, Text,
}
use mix.Effect.Action.{Action}
use mix.Effect.Observe.{Fact}
use mix.Effect.Failure.{Outcome}
use mix.Events.Tree.State.{Open, Tree, get}
use mix.Run.Runner.{Fallible, StepSpec, Input, Next, After, Doubt, Phase, Runner}
use mix.Run.Runner.Moves.{owned_by, flattened}
use mix.Run.Runner.Rounds.{Turned, plan_key, reclaim_key, answered, observed}
use mix.Run.Runner.Chain.{Link, Held}
use mix.Run.Runner.Keys.{Keyed, PlanFresh, ActionsFree}

-- What the driver has to answer with, by what it was told and by the phase.
pub data Asked : Type 0 where
  nothing facts outcome : Asked

abbrev pub asked_by : Next → Asked
asked_by (Next.observe _) = Asked.facts
asked_by (Next.perform _) = Asked.outcome
asked_by Next.finished = Asked.nothing

abbrev pub asked : Phase → Asked
asked (Phase.checking _ true) = Asked.facts
asked (Phase.executing _ _ _ true) = Asked.outcome
asked (Phase.rolling_back _ (some _) true) = Asked.outcome
asked (Phase.committing true _) = Asked.outcome
asked _ = Asked.nothing

abbrev pub Answers : Asked → Option Input → Type 0
Answers Asked.nothing i = Unit
Answers Asked.facts i = (facts : Fallible (List Fact)) × (observed i ≡ some facts)
Answers Asked.outcome i = (outcome : Outcome) × (answered i ≡ some outcome)

-- The tables of a runner fit its steps.
pub record Tables (steps : List StepSpec) (journal : List (List (List Action)))
    (doubts : List Doubt) (nodes : List (Option ℕ)) (causes : List (Option ℕ)) : Type 0 where
  pub keyed : Keyed steps
  pub journaled : length journal ≡ length steps
  pub numbered : length nodes ≡ length steps
  pub noded :
      (j : ℕ)
      → owned_by journal doubts j ≡ true
      → (j < length steps) × (id : ℕ) × (get_or nodes j none ≡ some id)
  pub known : (d c : ℕ) → flattened (get_elem? causes d) ≡ some c → c < length steps

abbrev pub Tabled : Runner → Type 0
Tabled r = Tables r.steps r.journal r.doubts r.nodes r.causes

-- The steps whose rollback has not been reported yet, from `step` on.
abbrev pub undoable_from : Bool → ℕ → ℕ → Bool
undoable_from true step j = leb step j
undoable_from false step j = true

abbrev pub resumes_at : After → ℕ → ℕ
resumes_at (After.continue next) n = next
resumes_at _ n = n

abbrev pub kept : After → ℕ → Bool
kept (After.continue next) j = leb next j
kept _ j = false

abbrev pub undoable_in : List ℕ → After → ℕ → Bool
undoable_in remaining after j = contains remaining j || kept after j

-- Only an independent run goes on behind a rollback.
abbrev pub Aimed : Runner → After → Type 0
Aimed r (After.continue next) = (r.independent ≡ true) × (next ≤ length r.steps)
Aimed r _ = Unit

abbrev pub NodedIn : ℕ → List (Option ℕ) → ℕ → Type 0
NodedIn n nodes step = (step < n) × (id : ℕ) × (get_or nodes step none ≡ some id)

abbrev pub Noded : Runner → ℕ → Type 0
Noded r step = NodedIn (length r.steps) r.nodes step

-- What remains to be rolled back is of steps that have started, each once.
abbrev pub Ready : ℕ → List (Option ℕ) → After → List ℕ → Type 0
Ready n nodes after [] = Unit
Ready n nodes after (step ∷ remaining) =
    NodedIn n nodes step
    × (contains remaining step ≡ false)
    × (kept after step ≡ false)
    × Ready n nodes after remaining

abbrev pub Reaching : Runner → ℕ → Bool → Type 0
Reaching r step true = step < length r.steps
Reaching r step false = step ≤ length r.steps

abbrev pub Rolling : Runner → List ℕ → Type 0
Rolling r remaining =
    Aimed r r.after
    × Ready (length r.steps) r.nodes r.after remaining
    × (length remaining ≤ length r.steps)

module _ {P : Type 0} where
  -- The runner waits for the action that it has started, if any.
  abbrev pub Busy : Runner → Tree P → Bool → List Link → Type 0
  Busy r t true links = (id : ℕ) × (r.acting ≡ some id) × Held t ((id, []) ∷ links)
  Busy r t false links = Held t links

  abbrev pub Planned : Runner → Tree P → ℕ → (ℕ → Bool) → Type 0
  Planned r t from undoable =
      (used : List Text) × Held t ((r.plan, used) ∷ [])
      × PlanFresh r.steps used r.performed from undoable

  -- The plan and one node under it.
  abbrev pub Nested : Runner → Tree P → ℕ → Bool → ℕ → (ℕ → Bool) → Type 0
  Nested r t node awaiting from undoable =
      (used keys : List Text) × PlanFresh r.steps used r.performed from undoable
      × ActionsFree keys r.performed
      × Busy r t awaiting ((node, keys) ∷ (r.plan, used) ∷ [])

  abbrev pub Phased : Runner → Tree P → Phase → Type 0
  Phased r t Phase.opening =
      (o : Open P) × (get t.open_nodes r.parent ≡ some o)
      × (contains o.used plan_key ≡ false)
      × (r.parent < t.next)
      × (r.after ≡ After.close)
  Phased r t (Phase.checking step asked) =
      (r.after ≡ After.close)
      × Reaching r step asked
      × Planned r t step (undoable_from r.independent step)
  Phased r t (Phase.executing step node queue awaiting) =
      (r.after ≡ After.close)
      × Noded r step
      × Nested r t node awaiting (step + 1) (undoable_from r.independent step)
  Phased r t (Phase.rolling_back remaining none awaiting) =
      Rolling r remaining
      × Planned r t (resumes_at r.after (length r.steps)) (undoable_in remaining r.after)
  Phased r t (Phase.rolling_back remaining (some u) awaiting) =
      Rolling r remaining
      × (u.step < length r.steps)
      × Nested r t u.node awaiting (resumes_at r.after (length r.steps))
          (undoable_in remaining r.after)
  Phased r t (Phase.committing false reclaim) =
      (used : List Text) × Held t ((r.plan, used) ∷ [])
      × (contains used reclaim_key ≡ false)
      × ActionsFree used r.performed
  Phased r t (Phase.committing true none) = (used : List Text) × Busy r t true ((r.plan, used) ∷ [])
  Phased r t (Phase.committing true (some node)) =
      (used keys : List Text) × Busy r t true ((node, keys) ∷ (r.plan, used) ∷ [])
  Phased r t Phase.closing = (used : List Text) × Held t ((r.plan, used) ∷ [])
  Phased r t Phase.closed = Unit

  abbrev pub Good : Runner → Tree P → Type 0
  Good r t = Tabled r × Phased r t r.phase

-- The rounds left of a check at `step`, with `n` steps in all.
abbrev pub checks : ℕ → ℕ → ℕ
checks n step = (n - step) * 7 + n * 3 + 3

abbrev pub behind : ℕ → After → ℕ
behind n (After.continue next) = checks n next + 1
behind n _ = 2

abbrev pub rank_in : ℕ → After → Phase → ℕ
rank_in n after Phase.opening = checks n 0 + 1
rank_in n after (Phase.checking step false) = checks n step
rank_in n after (Phase.checking step true) = checks n (step + 1) + 6
rank_in n after (Phase.executing step _ _ false) = checks n (step + 1) + 5
rank_in n after (Phase.executing step _ _ true) = checks n (step + 1) + 6
rank_in n after (Phase.rolling_back remaining none _) = length remaining * 3 + behind n after
rank_in n after (Phase.rolling_back remaining (some _) false) =
    length remaining * 3 + behind n after + 1
rank_in n after (Phase.rolling_back remaining (some _) true) =
    length remaining * 3 + behind n after + 2
rank_in n after (Phase.committing true _) = 2
rank_in n after _ = 1

abbrev pub rank : Runner → ℕ
rank r = rank_in (length r.steps) r.after r.phase

-- A round that is left in good order, with fewer rounds ahead unless it returns.
abbrev pub Fares : {P : Type 0} → ℕ → Option (Turned P) → Type 0
Fares rounds none = ⊥
Fares rounds (some (Turned.again m)) =
    Good m.runner m.tree × Answers (asked m.runner.phase) m.input × (rank m.runner < rounds)
Fares rounds (some (Turned.yields next m)) =
    Good m.runner m.tree × (asked m.runner.phase ≡ asked_by next)
