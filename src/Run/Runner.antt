-- ===== src/Run/Runner.antt =====
-- The types of crates/core/src/run/mod.rs: the steps that a request runs, the runner that takes
-- them one after the other, and what it asks of its driver. A vector with an entry for each step is
-- a list; the brand that ties a session to its runner is of the type system alone.

pub mod Moves
pub mod Rounds
pub mod Forward
pub mod Backward
pub mod Turn
pub mod Chain
pub mod Keys
pub mod Invariant
pub mod Tables
pub mod Settling
pub mod Calling
pub mod Executing
pub mod Checking
pub mod Rolling
pub mod Committing
pub mod Returns
pub mod Reports
pub mod Sessions
pub mod Current
pub mod Rolls
pub mod Undone
pub mod Failing
pub mod Quiet
pub mod Stopping
pub mod Examples
use mix.Base.{ℕ, List, [], Option, none, Bool, false, map, Text}
use mix.Effect.Action.{Action}
use mix.Effect.Observe.{Query, Fact}
use mix.Effect.Failure.{Failure, Outcome}
use mix.Events.Message.{Cancellation, Verb}
use mix.Events.Tree.State.{Tree}

-- `Result<_, Failure>`.
pub data Fallible (A : Type 0) : Type 0 where
  ok : A → Fallible A
  err : Failure → Fallible A

pub record Title : Type 0 where
  pub verb : Verb
  pub subject : Text

-- What a step says of itself; a range is its two ends.
pub record StepSpec : Type 0 where
  pub key : Text
  pub title : Title
  pub queries : List Query
  pub actions : List Fact → Fallible (List Action)
  pub shielded : Bool
  pub after : List ℕ
  pub within : ℕ × ℕ

pub data Input : Type 0 where
  facts : Fallible (List Fact) → Input
  done : Outcome → Input

pub data Next : Type 0 where
  observe : List Query → Next
  perform : Action → Next
  finished : Next

pub data Verdict : Type 0 where
  succeeded : Verdict
  failed : (step : Text) → Failure → Verdict
  cancelled : Cancellation → Verdict

pub data StepOutcome : Type 0 where
  satisfied changed : StepOutcome
  failed : Failure → StepOutcome
  cancelled : Cancellation → StepOutcome
  blocked : Text → StepOutcome

pub record Report : Type 0 where
  pub verdict : Verdict
  pub rollback_failures : List (Text × Failure)
  pub steps : List (Text × StepOutcome)

pub data After : Type 0 where
  close : After
  continue : ℕ → After
  commit : After

pub record Doubt : Type 0 where
  pub step : ℕ
  pub undo : List Action

pub record Undoing : Type 0 where
  pub step : ℕ
  pub node : ℕ
  pub doubtful : List Action
  pub queue : List Action
  pub doubting : Bool
  pub failed : Bool

-- The steps that remain to be rolled back stand with the last of the vector first.
pub data Phase : Type 0 where
  opening : Phase
  checking : (step : ℕ) → (asked : Bool) → Phase
  executing : (step node : ℕ) → (queue : List Action) → (awaiting : Bool) → Phase
  rolling_back : (remaining : List ℕ) → (current : Option Undoing) → (awaiting : Bool) → Phase
  committing : (awaiting : Bool) → (reclaim : Option ℕ) → Phase
  closing : Phase
  closed : Phase

pub record Runner : Type 0 where
  pub steps : List StepSpec
  pub parent : ℕ
  pub plan : ℕ
  pub journal : List (List (List Action))
  pub doubts : List Doubt
  pub nodes : List (Option ℕ)
  pub phase : Phase
  pub stopped : Option Cancellation
  pub verdict : Option Verdict
  pub report : Report
  pub acting : Option ℕ
  pub performed : ℕ
  pub independent : Bool
  pub after : After
  pub causes : List (Option ℕ)

-- `vec![x; count]`.
abbrev pub repeated : {A : Type 0} → List StepSpec → A → List A
repeated steps x = map (λ _. x) steps

unfoldable pub new : ℕ → List StepSpec → Runner
new parent steps = record {
  steps = steps;
  parent = parent;
  plan = 0;
  journal = repeated steps [];
  doubts = [];
  nodes = repeated steps none;
  phase = Phase.opening;
  stopped = none;
  verdict = none;
  report = record { verdict = Verdict.succeeded; rollback_failures = []; steps = [] };
  acting = none;
  performed = 0;
  independent = false;
  after = After.close;
  causes = [];
}

-- What one call of `step` works on: the runner, the tree it reports to, and the driver's answer.
pub record Machine (P : Type 0) : Type 0 where
  pub runner : Runner
  pub tree : Tree P
  pub input : Option Input
