-- ===== src/Run/Runner/Rolls.antt =====
-- What a rollback of crates/core/src/run/mod.rs has yet to perform.
pub mod Backward
use mix.Base.{
  ℕ, zero, suc, ◌+◌, ◌≤◌, ◌<◌, List, [], ◌∷◌, ◌++◌, Option, none, some, Bool, true, false, not,
  if◌then◌else◌, ◌≡◌, refl, sym, ap, ◌∙◌, arith, ◌==◌, nat_eq, contains, filter, flat_map, get_or,
  get_elem?, set, length, Text,
}
use mix.Effect.Action.{Action}
use mix.Effect.Describe.{describe}
use mix.Effect.Failure.{Failure, Outcome}
use mix.Events.Message.{Diagnostic, Kind}
use mix.Events.Tree.State.{Tree, start, finish}
use mix.Events.Tree.Abandon.{succeeded, failed}
use mix.Run.Rollback.{rollback_order}
use mix.Run.Runner.{Input, Next, After, Doubt, Undoing, Phase, Runner, Machine}
use mix.Run.Runner.Rounds.{
  Turned, doubtful_undo, forget, undoing_of, popped, popped_from, undone_runner, undone_step,
  rolled_back, ◌>>=◌, expect, bare, action_key, rollback_key, answered, settled_verdict,
}
use mix.Run.Runner.Forward.{act, acted}
use mix.Run.Runner.Backward.{
  undo_noted, next_rollback, undo, undo_with, undone, close, rollback_diagnostic, warn_incomplete,
  verdict_ending,
}
use mix.Run.Runner.Turn.{Stepped, stepped, turn_in, turn, step}
use mix.Run.Runner.Returns.{turn_in-Fares}
use mix.Run.Runner.Sessions.{rounds, rank-bounded}
use mix.Run.Runner.Invariant.{Asked, asked, Answers, Good, Phased, Ready, Fares, rank}

-- What there is to undo of a step, and of several.
abbrev pub undo_of : List (List (List Action)) → List Doubt → ℕ → List Action
undo_of journal doubts step = doubtful_undo doubts step ++ rollback_order (get_or journal step [])

abbrev pub undo_all : Runner → List ℕ → List Action
undo_all r remaining = flat_map (undo_of r.journal r.doubts) remaining

-- What a rollback has yet to perform.
unfoldable pub pending : Runner → Phase → List Action
pending r (Phase.rolling_back remaining none _) = undo_all r remaining
pending r (Phase.rolling_back remaining (some u) _) = u.doubtful ++ u.queue ++ undo_all r remaining
pending r _ = []

-- A run that ends behind its rollback.
abbrev pub Unwinding : Runner → Phase → Type 0
Unwinding r (Phase.rolling_back remaining _ _) = r.after ≡ After.close
Unwinding r Phase.closing = Unit
Unwinding r _ = ⊥

abbrev pub Rolls : {P : Type 0} → List Action → Option (Turned P) → Type 0
Rolls actions none = Unit
Rolls actions (some (Turned.again m)) =
    Unwinding m.runner m.runner.phase × (actions ≡ pending m.runner m.runner.phase)
Rolls actions (some (Turned.yields (Next.perform action) m)) =
    Unwinding m.runner m.runner.phase × (actions ≡ action ∷ pending m.runner m.runner.phase)
Rolls actions (some (Turned.yields Next.finished m)) = actions ≡ []
Rolls actions (some (Turned.yields (Next.observe _) m)) = ⊥

get_or-set_ne :
    {A : Type 0} (xs : List A) (i j : ℕ) (v d : A)
    → (i == j) ≡ false
    → get_or (set xs i v) j d ≡ get_or xs j d
get_or-set_ne [] i j v d h = refl
get_or-set_ne (x ∷ xs) zero zero v d h = absurd (ground (arith, h))
get_or-set_ne (x ∷ xs) zero (suc j) v d h = refl
get_or-set_ne (x ∷ xs) (suc i) zero v d h = refl
get_or-set_ne (x ∷ xs) (suc i) (suc j) v d h = get_or-set_ne xs i j v d (ground (arith, h))

filter-others :
    (step j : ℕ) (doubts : List Doubt)
    → (step == j) ≡ false
    → filter (λ d. d.step == j) (filter (λ d. not (d.step == step)) doubts)
      ≡ filter (λ d. d.step == j) doubts
filter-others step j [] h = refl
filter-others step j (d ∷ doubts) h = ground (arith, h, filter-others step j doubts h)

pub undo_all-forget :
    (r : Runner) (step : ℕ) (remaining : List ℕ)
    → contains remaining step ≡ false
    → undo_all (forget r step) remaining ≡ undo_all r remaining
unfolding forget
undo_all-forget r step [] h = refl
undo_all-forget r step (j ∷ remaining) h =
    let other : (step == j) ≡ false = ground (arith, h) in
    let a = get_or-set_ne r.journal step j [] [] other in
    let b = filter-others step j r.doubts other in
    let c = undo_all-forget r step remaining (ground (arith, h)) in rw (a, b, c) refl

module _ {P : Type 0} where
  pub Rolls-bind :
      {A : Type 0} (actions : List Action) (o : Option A) (f : A → Option (Turned P))
      → ((a : A) → o ≡ some a → Rolls actions (f a))
      → Rolls actions (o >>= f)
  Rolls-bind actions none f h = tt
  Rolls-bind actions (some a) f h = h a refl
