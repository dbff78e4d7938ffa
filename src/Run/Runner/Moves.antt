-- ===== src/Run/Runner/Moves.antt =====
-- What crates/core/src/run/mod.rs does to the runner alone. The tables of a runner have an entry for
-- each step, so a lookup that is out of bounds, which panics in the source, reads a default here;
-- the lookup of a step itself is in Run.Runner.Turn.
use mix.Base.{
  ℕ, zero, suc, ◌+◌, ◌-◌, List, [], ◌∷◌, ◌++◌, Option, none, some, Bool, true, false, not, ◌||◌,
  if◌then◌else◌, ◌==◌, nat_eq, ltb, get_or, get_elem?, set, filter, any, all, length,
}
use mix.Effect.Action.{Action}
use mix.Effect.Failure.{Failure}
use mix.Events.Message.{Cancellation}
use mix.Events.Tree.Abandon.{below}
use mix.Run.Runner.{StepSpec, Verdict, StepOutcome, After, Doubt, Phase, Runner, repeated}

abbrev pub is_nil : {A : Type 0} → List A → Bool
is_nil [] = true
is_nil (_ ∷ _) = false

-- `Option::get_or_insert`.
abbrev pub get_or_insert : {A : Type 0} → Option A → A → Option A
get_or_insert none x = some x
get_or_insert (some y) x = some y

abbrev pub or_else : {A : Type 0} → Option A → Option A → Option A
or_else none o = o
or_else (some x) o = some x

-- Whether there is something of the step to undo.
abbrev pub owned_by : List (List (List Action)) → List Doubt → ℕ → Bool
owned_by journal doubts step =
    not (is_nil (get_or journal step [])) || any (λ d. d.step == step) doubts

abbrev pub owned : Runner → ℕ → Bool
owned r step = owned_by r.journal r.doubts step

unfoldable pub independent : Runner → Runner
independent r = record r { independent = true }

unfoldable pub record_outcome : Runner → StepSpec → StepOutcome → Runner
record_outcome r spec outcome =
    let steps = r.report.steps in
    record r {
      report = record r.report {
        steps = if r.independent then steps ++ (spec.key, outcome) ∷ [] else steps;
      };
    }

unfoldable pub caused : Runner → ℕ → ℕ → Runner
caused r step cause =
    let causes = if is_nil r.causes then repeated r.steps none else r.causes in
    record r { causes = set causes step (some cause) }

-- `start..start + count`.
abbrev range_from : ℕ → ℕ → List ℕ
range_from start zero = []
range_from start (suc count) = start ∷ range_from (start + 1) count

abbrev pub range : ℕ × ℕ → List ℕ
range (start, end) = range_from start (end - start)

abbrev pub find_map : {A B : Type 0} → (A → Option B) → List A → Option B
find_map f [] = none
find_map f (x ∷ xs) = or_else (f x) (find_map f xs)

abbrev pub flattened : Option (Option ℕ) → Option ℕ
flattened none = none
flattened (some o) = o

unfoldable pub blocker : Runner → StepSpec → Option ℕ
blocker r spec =
    if is_nil r.causes
    then none
    else find_map (λ dependency. flattened (get_elem? r.causes dependency))
        (spec.after ++ range spec.within)

abbrev pub awaited : Phase → Option ℕ
awaited (Phase.executing _ node _ _) = some node
awaited (Phase.rolling_back _ (some undoing) _) = some undoing.node
awaited _ = none

unfoldable pub current_node : Runner → Option ℕ
current_node r = or_else r.acting (awaited r.phase)

unfoldable pub rolling_back : Runner → Bool
rolling_back r = elim r.phase [ Phase.rolling_back _ _ _ ↦ true | _ ↦ false ]

abbrev pub step_shielded : Runner → ℕ → Bool
step_shielded r step = elim (get_elem? r.steps step) [ none ↦ false | some spec ↦ spec.shielded ]

unfoldable pub cancellable : Runner → Bool
cancellable r = elim r.phase [
  | Phase.opening ↦ true
  | Phase.rolling_back _ _ _ ↦ true
  | Phase.checking step _ ↦ ltb step (length r.steps)
  | Phase.executing step _ _ _ ↦ not (step_shielded r step) || ltb (step + 1) (length r.steps)
  | Phase.committing _ _ ↦ false
  | Phase.closing ↦ false
  | Phase.closed ↦ false
]

unfoldable pub shielded : Runner → Bool
shielded r = elim r.phase [
  | Phase.rolling_back _ _ _ ↦ true
  | Phase.committing _ none ↦ true
  | Phase.executing step _ _ _ ↦ step_shielded r step
  | _ ↦ false
]

-- The doubts with one more, where a step runs and something may be left of it.
abbrev pub doubting : List Doubt → Phase → List Action → List Doubt
doubting doubts (Phase.executing step _ _ _) (action ∷ undo) =
    doubts ++ record { step = step; undo = action ∷ undo } ∷ []
doubting doubts _ _ = doubts

unfoldable pub in_doubt : Runner → List Action → Runner
in_doubt r undo = record r { doubts = doubting r.doubts r.phase undo }

unfoldable pub stop : Runner → Cancellation → Runner
stop r cause = record r { stopped = get_or_insert r.stopped cause }

unfoldable pub finish_or_commit : Runner → Runner
finish_or_commit r = record r {
  phase = if all is_nil r.journal then Phase.closing else Phase.committing false none;
}

unfoldable pub roll_back_only : Runner → ℕ → After → Runner
roll_back_only r step after =
    let remaining = if owned r step then step ∷ [] else [] in
    record r { after = after; phase = Phase.rolling_back remaining none false }

unfoldable pub roll_back : Runner → Runner
unfolding below
roll_back r =
    let remaining = filter (owned r) (below (length r.steps)) in
    record r { phase = Phase.rolling_back remaining none false }

unfoldable pub fail : Runner → ℕ → StepSpec → Failure → Runner
unfolding caused record_outcome roll_back_only roll_back
fail r step spec failure =
    let r = record_outcome (caused r step step) spec (StepOutcome.failed failure) in
    let failed = Verdict.failed spec.key failure in
    if r.independent
    then roll_back_only (record r { verdict = get_or_insert r.verdict failed }) step
        (After.continue (step + 1))
    else roll_back (record r { verdict = some failed })

-- Where a cancelled independent run goes: what the current step left is undone.
unfoldable pub cancel_alone : Runner → Option ℕ → Runner
unfolding finish_or_commit roll_back_only
cancel_alone r none = finish_or_commit r
cancel_alone r (some step) =
    if owned r step then roll_back_only r step After.commit else finish_or_commit r

unfoldable pub cancel : Runner → Cancellation → Option ℕ → Runner
unfolding roll_back cancel_alone
cancel r cause current =
    let r = record r { verdict = some (Verdict.cancelled cause) } in
    if r.independent then cancel_alone r current else roll_back r

abbrev is_keep : Action → Bool
is_keep (Action.keep _) = true
is_keep _ = false

unfoldable pub reclaims : Runner → Bool
reclaims r = any (any (any is_keep)) r.journal
