-- ===== src/Run/Runner/Sessions.antt =====
-- A session of crates/core/src/run/mod.rs: what a driver does with a runner, and what it can rely on.
use Prim.Native.Nat.{◌*◌}
use mix.Base.{
  Eq, ℕ, zero, suc, ◌+◌, ◌≤◌, ◌<◌, List, [], ◌∷◌, Option, none, some, Bool, true, false,
  if◌then◌else◌, ◌≡◌, refl, arith, contains, text_eq, get_or, length, Text,
}
use mix.Effect.Action.{Action}
use mix.Effect.Failure.{Failure}
use mix.Events.Message.{Cancellation, Diagnostic, Progress}
use mix.Events.Tree.State.{Open, Tree, get, ok, progress, warn}
use mix.Run.Runner.Reports.{Phased-Same, progress-Same, warn-Same}
use mix.Run.Runner.{StepSpec, Input, Next, After, Doubt, Phase, Runner, Machine, new, repeated}
use mix.Run.Runner.Moves.{is_nil, get_or_insert, doubting, stop, in_doubt, independent}
use mix.Run.Runner.Rounds.{plan_key}
use mix.Run.Runner.Turn.{Stepped, step}
use mix.Run.Runner.Keys.{Keyed}
use mix.Run.Runner.Tables.{Tabled-in_doubt}
use mix.Run.Runner.Returns.{Returned, step-Returned, step-Sound}
use mix.Run.Runner.Invariant.{
  Asked, asked, asked_by, Answers, Tables, Good, Tabled, Phased, rank_in, behind,
}

-- The runner of a request: its steps depend on each other, or are independent.
unfoldable pub runner_of : Bool → ℕ → List StepSpec → Runner
unfolding independent new
runner_of alone parent steps = if alone then independent (new parent steps) else new parent steps

nothing_journaled :
    (steps : List StepSpec) (j : ℕ)
    → is_nil (get_or (repeated {A = List (List Action)} steps []) j []) ≡ true
nothing_journaled [] j = refl
nothing_journaled (s ∷ steps) zero = refl
nothing_journaled (s ∷ steps) (suc j) = nothing_journaled steps j

length-repeated :
    {A : Type 0} (steps : List StepSpec) (x : A) → length (repeated steps x) ≡ length steps
length-repeated [] x = refl
length-repeated (s ∷ steps) x = omega (arith, length-repeated steps x)

-- Where a runner starts: its parent is open, and has no plan yet.
pub record Entered {P : Type 0} (parent : ℕ) (t : Tree P) : Type 0 where
  pub node : Open P
  pub open' : get t.open_nodes parent ≡ some node
  pub unplanned : contains node.used plan_key ≡ false
  pub known : parent < t.next

runner_of-Good :
    {P : Type 0} (alone : Bool) (parent : ℕ) (steps : List StepSpec) (t : Tree P)
    → Keyed steps
    → Entered parent t
    → Good (runner_of alone parent steps) t
      × (asked (runner_of alone parent steps).phase ≡ Asked.nothing)
unfolding runner_of independent new
runner_of-Good alone parent steps t keyed e =
    let tables : Tables steps (repeated steps []) [] (repeated steps none) [] = record {
      keyed = keyed;
      journaled = length-repeated steps [];
      numbered = length-repeated steps none;
      noded = λ j h. absurd (let empty = nothing_journaled steps j in ground (arith, h, empty));
      known = λ d c h. absurd (cc (h));
    } in
    elim alone
      as (λ a.
        Good (runner_of a parent steps) t
        × (asked (runner_of a parent steps).phase ≡ Asked.nothing)) [
          | true ↦ ((tables, (e.node, e.open', e.unplanned, e.known, refl)), refl)
          | false ↦ ((tables, (e.node, e.open', e.unplanned, e.known, refl)), refl)
        ]

-- What a phase asks for does not lie in the doubts, nor in whether the run was stopped.
touched-Phased :
    {P : Type 0} (r : Runner) (t : Tree P) (doubts : List Doubt) (stopped : Option Cancellation)
    (p : Phase)
    → Phased r t p
    → Phased (record r { doubts = doubts; stopped = stopped }) t p
touched-Phased r t doubts stopped Phase.opening h = h
touched-Phased r t doubts stopped (Phase.checking step true) h = h
touched-Phased r t doubts stopped (Phase.checking step false) h = h
touched-Phased r t doubts stopped (Phase.executing step node queue true) h = h
touched-Phased r t doubts stopped (Phase.executing step node queue false) h = h
touched-Phased r t doubts stopped (Phase.rolling_back remaining none awaiting) h = h
touched-Phased r t doubts stopped (Phase.rolling_back remaining (some u) true) h = h
touched-Phased r t doubts stopped (Phase.rolling_back remaining (some u) false) h = h
touched-Phased r t doubts stopped (Phase.committing false reclaim) h = h
touched-Phased r t doubts stopped (Phase.committing true none) h = h
touched-Phased r t doubts stopped (Phase.committing true (some node)) h = h
touched-Phased r t doubts stopped Phase.closing h = h
touched-Phased r t doubts stopped Phase.closed h = h

doubting-Tabled :
    {P : Type 0} (r : Runner) (t : Tree P) (p : Phase) (undo : List Action)
    → Tabled r
    → Phased r t p
    → Tabled (record r { doubts = doubting r.doubts p undo })
doubting-Tabled r t (Phase.executing step node queue awaiting) (action ∷ undo) tables
      (closing, noded, nested) =
    Tabled-in_doubt r step (action ∷ undo) tables noded
doubting-Tabled r t _ _ tables phased = tables

in_doubt-Good :
    {P : Type 0} (r : Runner) (t : Tree P) (undo : List Action)
    → Good r t
    → Good (in_doubt r undo) t
unfolding in_doubt
in_doubt-Good r t undo (tables, phased) = (
  doubting-Tabled r t r.phase undo tables phased,
  touched-Phased r t (doubting r.doubts r.phase undo) r.stopped r.phase phased,
)

-- The rounds that a call may take.
abbrev pub rounds : Runner → ℕ
rounds r = length r.steps * 13 + 8

behind-bounded : (n : ℕ) (after : After) → behind n after ≤ n * 10 + 4
behind-bounded n After.close = omega arith
behind-bounded n (After.continue next) = omega arith
behind-bounded n After.commit = omega arith

pub rank-bounded :
    {P : Type 0} (r : Runner) (t : Tree P) (p : Phase)
    → Phased r t p
    → rank_in (length r.steps) r.after p < rounds r
rank-bounded r t Phase.opening h = omega arith
rank-bounded r t (Phase.checking step true) (closing, low, planned) = omega (arith, low)
rank-bounded r t (Phase.checking step false) h = omega arith
rank-bounded r t (Phase.executing step node queue true) (closing, noded, nested) =
    omega (arith, noded.0)
rank-bounded r t (Phase.executing step node queue false) (closing, noded, nested) =
    omega (arith, noded.0)
rank-bounded r t (Phase.rolling_back remaining none awaiting) (rolling, planned) =
    omega (arith, rolling.2, behind-bounded (length r.steps) r.after)
rank-bounded r t (Phase.rolling_back remaining (some u) true) (rolling, low, nested) =
    omega (arith, rolling.2, behind-bounded (length r.steps) r.after)
rank-bounded r t (Phase.rolling_back remaining (some u) false) (rolling, low, nested) =
    omega (arith, rolling.2, behind-bounded (length r.steps) r.after)
rank-bounded r t (Phase.committing awaiting reclaim) h = ground arith
rank-bounded r t Phase.closing h = omega arith
rank-bounded r t Phase.closed h = omega arith

module _ {P : Type 0} ⦃eq : Eq P⦄ (diagnose : Failure → Diagnostic P)
    (contents : List (Diagnostic P) → List Text → P) where
  -- The calls of a driver that answers what it is asked. At any time it may stop the run, put in doubt
  -- what an action left, and report progress and warnings on a node of the tree. It makes no other
  -- calls of the tree; a report that the tree refuses changes nothing.
  pub data Driven (r₀ : Runner) (t₀ : Tree P) : Asked → Runner → Tree P → Type 0 where
    opened : Driven r₀ t₀ Asked.nothing r₀ t₀
    called :
        {a : Asked} {r : Runner} {t : Tree P}
        → Driven r₀ t₀ a r t
        → (fuel : ℕ) (i : Option Input) → Answers a i
        → (n : Next) (m : Machine P)
        → step diagnose contents fuel (record { runner = r; tree = t; input = i })
          ≡ Stepped.next n m
        → Driven r₀ t₀ (asked_by n) m.runner m.tree
    stopped :
        {a : Asked} {r : Runner} {t : Tree P}
        → Driven r₀ t₀ a r t
        → (cause : Cancellation) → Driven r₀ t₀ a (stop r cause) t
    doubted :
        {a : Asked} {r : Runner} {t : Tree P}
        → Driven r₀ t₀ a r t
        → (undo : List Action) → Driven r₀ t₀ a (in_doubt r undo) t
    progressed :
        {a : Asked} {r : Runner} {t : Tree P}
        → Driven r₀ t₀ a r t
        → (id : ℕ) (p : Progress P) (t' : Tree P) → progress t id p ≡ ok t'
        → Driven r₀ t₀ a r t'
    warned :
        {a : Asked} {r : Runner} {t : Tree P}
        → Driven r₀ t₀ a r t
        → (id : ℕ) (d : Diagnostic P) (t' : Tree P) → warn t id d ≡ ok t'
        → Driven r₀ t₀ a r t'

  Driven-Good :
      (r₀ : Runner) (t₀ : Tree P) (a : Asked) (r : Runner) (t : Tree P)
      → Good r₀ t₀
      → asked r₀.phase ≡ Asked.nothing
      → Driven r₀ t₀ a r t
      → Good r t × (asked r.phase ≡ a)
  unfolding stop in_doubt
  Driven-Good r₀ t₀ a r t good e Driven.opened = (good, e)
  Driven-Good r₀ t₀ a r' t' good e
        (Driven.called {a = a'} {r = r} {t = t} before fuel i answers n m done) =
      let (good', waits) = Driven-Good r₀ t₀ a' r t good e before in
      rw done at (
        step-Sound diagnose contents fuel (record { runner = r; tree = t; input = i }) good'
          (rw waits answers))
  Driven-Good r₀ t₀ a r' t good e (Driven.stopped {r = r} before cause) =
      let ((tables, phased), waits) = Driven-Good r₀ t₀ a r t good e before in
      ((tables, touched-Phased r t r.doubts (get_or_insert r.stopped cause) r.phase phased), waits)
  Driven-Good r₀ t₀ a r' t good e (Driven.doubted {r = r} before undo) =
      let (good', waits) = Driven-Good r₀ t₀ a r t good e before in
      (in_doubt-Good r t undo good', waits)
  Driven-Good r₀ t₀ a r t' good e (Driven.progressed {t = t} before id p _ done) =
      let ((tables, phased), waits) = Driven-Good r₀ t₀ a r t good e before in
      ((tables, Phased-Same r t t' r.phase (progress-Same t t' id p done) phased), waits)
  Driven-Good r₀ t₀ a r t' good e (Driven.warned {t = t} before id d _ done) =
      let ((tables, phased), waits) = Driven-Good r₀ t₀ a r t good e before in
      ((tables, Phased-Same r t t' r.phase (warn-Same t t' id d done) phased), waits)

  pub runner_of-Driven :
      (alone : Bool) (parent : ℕ) (steps : List StepSpec) (t₀ : Tree P) (a : Asked) (r : Runner)
      (t : Tree P)
      → Keyed steps
      → Entered parent t₀
      → Driven (runner_of alone parent steps) t₀ a r t
      → Good r t × (asked r.phase ≡ a)
  runner_of-Driven alone parent steps t₀ a r t keyed entered driven =
      let (good, idle) = runner_of-Good alone parent steps t₀ keyed entered in
      Driven-Good (runner_of alone parent steps) t₀ a r t good idle driven

  Returned-next :
      (s : Stepped diagnose contents)
      → Returned diagnose contents s
      → (n : Next) × (m : Machine P) × (s ≡ Stepped.next n m)
  Returned-next (Stepped.next n m) h = (n, m, refl)
  Returned-next Stepped.out_of_fuel h = elim h [ ]
  Returned-next Stepped.panicked h = elim h [ ]

  -- The keys of the steps differ and none is the runner's own, and the runner starts under an open
  -- node that has no plan. Then, whatever calls a driver has made that answers what it is asked,
  -- stops, puts in doubt, and reports progress and warnings, the next call of `step` with an answer to
  -- what was asked last returns. It neither panics nor loops on, and the rounds that it takes are
  -- bounded by the number of the steps.
  pub step-Driven :
      (alone : Bool) (parent : ℕ) (steps : List StepSpec) (t₀ : Tree P)
      → Keyed steps
      → Entered parent t₀
      → (a : Asked) (r : Runner) (t : Tree P) (i : Option Input)
      → Driven (runner_of alone parent steps) t₀ a r t
      → Answers a i
      → (n : Next) × (m : Machine P) × (step diagnose contents
            (rounds r)
            (record { runner = r; tree = t; input = i })
          ≡ Stepped.next n m)
  step-Driven alone parent steps t₀ keyed entered a r t i driven answers =
      let (good, waits) = runner_of-Driven alone parent steps t₀ a r t keyed entered driven in
      let m : Machine P = record { runner = r; tree = t; input = i } in
      Returned-next (step diagnose contents (rounds r) m) (
        step-Returned diagnose contents (rounds r) m good (rw waits answers)
          (rank-bounded r t r.phase good.1))
