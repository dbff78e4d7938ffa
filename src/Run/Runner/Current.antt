-- ===== src/Run/Runner/Current.antt =====
-- `current_node` of crates/core/src/run/mod.rs, where the driver hangs the processes of an action.
use mix.Base.{Eq, ℕ, List, [], ◌∷◌, none, some, Bool, true, false, ◌≡◌, ap, Text}
use mix.Effect.Failure.{Failure}
use mix.Events.Message.{Diagnostic}
use mix.Events.Tree.State.{Open, Tree, get}
use mix.Run.Runner.{StepSpec, Phase, Runner}
use mix.Run.Runner.Moves.{or_else, awaited, current_node}
use mix.Run.Runner.Chain.{Link}
use mix.Run.Runner.Keys.{Keyed}
use mix.Run.Runner.Sessions.{runner_of, Driven, Entered, runner_of-Driven}
use mix.Run.Runner.Invariant.{Asked, asked, Phased, Busy}

abbrev Acts : {P : Type 0} → Runner → Tree P → Type 0
Acts {P = P} r t =
    (id : ℕ) × (o : Open P) × (r.acting ≡ some id)
    × (get t.open_nodes id ≡ some o)
    × (o.children ≡ 0)

Busy-Acts :
    {P : Type 0} (r : Runner) (t : Tree P) (links : List Link) → Busy r t true links → Acts r t
Busy-Acts r t links (id, acts, (o, at, _, idle, _, _, _, _)) = (id, o, acts, at, idle)

outcome-Acts :
    {P : Type 0} (r : Runner) (t : Tree P) (p : Phase)
    → Phased r t p
    → asked p ≡ Asked.outcome
    → Acts r t
outcome-Acts r t (Phase.executing step node queue true) (_, _, (used, keys, _, _, busy)) e =
    Busy-Acts r t ((node, keys) ∷ (r.plan, used) ∷ []) busy
outcome-Acts r t (Phase.rolling_back remaining (some u) true) (_, _, (used, keys, _, _, busy)) e =
    Busy-Acts r t ((u.node, keys) ∷ (r.plan, used) ∷ []) busy
outcome-Acts r t (Phase.committing true none) (used, busy) e =
    Busy-Acts r t ((r.plan, used) ∷ []) busy
outcome-Acts r t (Phase.committing true (some node)) (used, keys, busy) e =
    Busy-Acts r t ((node, keys) ∷ (r.plan, used) ∷ []) busy
outcome-Acts r t Phase.opening phased e = absurd (cc)
outcome-Acts r t (Phase.checking step true) phased e = absurd (cc)
outcome-Acts r t (Phase.checking step false) phased e = absurd (cc)
outcome-Acts r t (Phase.executing step node queue false) phased e = absurd (cc)
outcome-Acts r t (Phase.rolling_back remaining none awaiting) phased e = absurd (cc)
outcome-Acts r t (Phase.rolling_back remaining (some u) false) phased e = absurd (cc)
outcome-Acts r t (Phase.committing false reclaim) phased e = absurd (cc)
outcome-Acts r t Phase.closing phased e = absurd (cc)
outcome-Acts r t Phase.closed phased e = absurd (cc)

module _ {P : Type 0} ⦃eq : Eq P⦄ (diagnose : Failure → Diagnostic P)
    (contents : List (Diagnostic P) → List Text → P) where
  -- The keys of the steps differ and none is the runner's own, and the runner starts under an open
  -- node that has no plan. Then, while a driver performs an action that makes the calls of `Driven`,
  -- reports of progress and warnings included, the current node of the runner is open in the tree, and
  -- has no open child.
  pub current_node-Driven :
      (alone : Bool) (parent : ℕ) (steps : List StepSpec) (t₀ : Tree P)
      → Keyed steps
      → Entered parent t₀
      → (r : Runner) (t : Tree P)
      → Driven diagnose contents (runner_of alone parent steps) t₀ Asked.outcome r t
      → (id : ℕ) × (o : Open P) × (current_node r ≡ some id)
        × (get t.open_nodes id ≡ some o)
        × (o.children ≡ 0)
  unfolding current_node
  current_node-Driven alone parent steps t₀ keyed entered r t driven =
      let ((tables, phased), waits) =
        runner_of-Driven diagnose contents alone parent steps t₀ Asked.outcome r t keyed entered
          driven in
      let (id, o, acts, at, idle) = outcome-Acts r t r.phase phased waits in
      (id, o, ap (λ acting. or_else acting (awaited r.phase)) acts, at, idle)
