-- ===== src/Run/Runner/Examples.antt =====
-- A run on which the theorems of this folder run: its step enables a unit and starts it.
use mix.Base.{
  nat_eq, ℕ, List, [], ◌∷◌, Option, none, some, true, false, ◌≡◌, refl, length, Text, text, arith,
  is_some,
}
use mix.Effect.Action.{Action}
use mix.Effect.Failure.{Failure, Outcome}
use mix.Events.Message.{Progress, Cancellation, Diagnostic, Severity, Verb, Kind, root}
use mix.Events.Tree.State.{Used, Tree, Start, new_tree}
use mix.Run.Runner.{Fallible, StepSpec, Input, Next, Phase, Runner, Machine, new}
use mix.Run.Runner.Turn.{Stepped, step}
use mix.Run.Runner.Turn
use mix.Run.Runner.Forward
use mix.Run.Runner.Rounds
use mix.Run.Runner.Moves
use mix.Events.Tree.State
use mix.Declared.Paths.{decimal}
use mix.Effect.Describe.{describe}
use mix.Run.Runner.Keys.{Keyed}
use mix.Run.Runner.Sessions.{runner_of, Driven, Entered, rounds, step-Driven}
use mix.Run.Rollback
use mix.Run.Rollback.{rollback_order}
use mix.Run.Runner.Undone.{performs}
use mix.Run.Runner.Failing.{performs-failure}
use mix.Run.Runner.Current.{current_node-Driven}
use mix.Run.Runner.Moves.{current_node}
use mix.Events.Tree.State.{Open, get}
use mix.Run.Runner.Quiet.{observes}
use mix.Run.Runner.Stopping.{stopped-Driven}
use mix.Run.Runner.Invariant.{Asked}

abbrev diagnose : Failure → Diagnostic ℕ
diagnose failure = record {
  code = 1;
  severity = Severity.error;
  node = 0;
  message = text "failed";
  contents = 0;
}

abbrev contents : List (Diagnostic ℕ) → List Text → ℕ
contents causes steps = length causes

abbrev spec_of : Text → List Action → StepSpec
spec_of key actions = record {
  key = key;
  title = record { verb = Verb.configuring; subject = key };
  queries = [];
  actions = λ _. Fallible.ok actions;
  shielded = false;
  after = [];
  within = (0, 0);
}

abbrev steps : List StepSpec
steps =
    spec_of (text "activate")
      (Action.enable_unit (text "nix") ∷ Action.start_unit (text "nix") ∷ [])
    ∷ []

abbrev root_start : Start ℕ
root_start = record { key = text "install"; kind = Kind.command 0; planned = []; shielded = false }

abbrev tree : Tree ℕ
tree = new_tree root_start

abbrev machine_of : Machine ℕ → Stepped diagnose contents → Machine ℕ
machine_of m (Stepped.next _ m') = m'
machine_of m _ = m

abbrev at_start : Machine ℕ
at_start = record { runner = runner_of false root steps; tree = tree; input = none }

abbrev answer : Machine ℕ → Option Input → Machine ℕ
answer m i = record m { input = i }

abbrev after : Machine ℕ → Machine ℕ
after m = machine_of m (step diagnose contents (rounds m.runner) m)

abbrev facts : Option Input
facts = some (Input.facts (Fallible.ok []))

abbrev done : List Action → Option Input
done undo = some (Input.done (Outcome.ok (record { undo = undo })))

abbrev first_asked : Machine ℕ
first_asked = after at_start

abbrev first_acts : Machine ℕ
first_acts = after (answer first_asked facts)

-- The first action is done, and the second asked for.
abbrev second_acts : Machine ℕ
second_acts = after (answer first_acts (done (Action.disable_unit (text "nix") ∷ [])))

abbrev disable : Action
disable = Action.disable_unit (text "nix")

at_start-step :
    step diagnose contents (rounds at_start.runner) at_start
    ≡ Stepped.next (Next.observe []) first_asked
unfolding step Turn.turn Turn.turn_in Forward.open_plan Forward.check Forward.check_step Forward.ask
    Moves.blocker runner_of new Moves.independent State.start State.claim State.open_node
    State.new_tree
at_start-step = refl

first_asked-step :
    step diagnose contents (rounds first_asked.runner) (answer first_asked facts)
    ≡ Stepped.next (Next.perform (Action.enable_unit (text "nix"))) first_acts
unfolding step Turn.turn Turn.turn_in Forward.open_plan Forward.check Forward.check_step Forward.ask
    Moves.blocker runner_of new Moves.independent State.start State.claim State.open_node
    State.new_tree Forward.begin Forward.launch Rounds.resolved Forward.execute Forward.advance
    Forward.act Rounds.action_key Forward.executed Forward.acted Forward.noted State.finish
    Moves.record_outcome describe decimal
first_asked-step = refl

first_acts-step :
    step diagnose contents (rounds first_acts.runner) (answer first_acts (done (disable ∷ [])))
    ≡ Stepped.next (Next.perform (Action.start_unit (text "nix"))) second_acts
unfolding step Turn.turn Turn.turn_in Forward.open_plan Forward.check Forward.check_step Forward.ask
    Moves.blocker runner_of new Moves.independent State.start State.claim State.open_node
    State.new_tree Forward.begin Forward.launch Rounds.resolved Forward.execute Forward.advance
    Forward.act Rounds.action_key Forward.executed Forward.acted Forward.noted State.finish
    Moves.record_outcome describe decimal
first_acts-step = refl

steps-Keyed : Keyed steps
unfolding mix.Run.Runner.Keys.reserved
steps-Keyed = record { differ = (refl, tt); apart = refl }

tree-Entered : Entered root tree
unfolding State.new_tree State.open_node
tree-Entered = record {
  node = State.opened 0 root_start;
  open' = refl;
  unplanned = refl;
  known = omega arith;
}

driven :
    Driven diagnose contents
      (runner_of false root steps)
      tree
      Asked.outcome
      second_acts.runner
      second_acts.tree
driven =
    Driven.called
      (Driven.called
        (Driven.called Driven.opened (rounds at_start.runner) none tt (Next.observe []) first_asked
          at_start-step)
        (rounds first_asked.runner) facts (Fallible.ok [], refl)
        (Next.perform (Action.enable_unit (text "nix"))) first_acts first_asked-step)
      (rounds first_acts.runner) (done (disable ∷ []))
      (Outcome.ok (record { undo = disable ∷ [] }), refl)
      (Next.perform (Action.start_unit (text "nix"))) second_acts first_acts-step

-- The driver reports how far the second action is.
abbrev tree_behind : Used (Tree ℕ) → Tree ℕ
tree_behind (Used.ok t) = t
tree_behind (Used.err _) = tree

abbrev report : Progress ℕ
report = Progress.bytes 7

abbrev reported : Tree ℕ
reported = tree_behind (State.progress second_acts.tree 5 report)

reported-ok : State.progress second_acts.tree 5 report ≡ Used.ok reported
unfolding step Turn.turn Turn.turn_in Forward.open_plan Forward.check Forward.check_step Forward.ask
    Moves.blocker runner_of new Moves.independent State.start State.claim State.open_node
    State.new_tree Forward.begin Forward.launch Rounds.resolved Forward.execute Forward.advance
    Forward.act Rounds.action_key Forward.executed Forward.acted Forward.noted State.finish
    Moves.record_outcome describe decimal State.progress State.gauged
reported-ok = refl

step-Driven_example :
    (n : Next) × (m : Machine ℕ) × (step diagnose contents
        (rounds second_acts.runner)
        (record { runner = second_acts.runner; tree = reported; input = done [] })
      ≡ Stepped.next n m)
step-Driven_example =
    step-Driven diagnose contents false root steps tree steps-Keyed tree-Entered Asked.outcome
      second_acts.runner reported (done []) (Driven.progressed driven 5 report reported reported-ok)
      (Outcome.ok (record { undo = [] }), refl)

current_node-Driven_example :
    (id : ℕ) × (o : Open ℕ) × (current_node second_acts.runner ≡ some id)
    × (get second_acts.tree.open_nodes id ≡ some o)
    × (o.children ≡ 0)
current_node-Driven_example =
    current_node-Driven diagnose contents false root steps tree steps-Keyed tree-Entered
      second_acts.runner second_acts.tree driven

abbrev refused : Option Input
refused = some (Input.done (Outcome.err (Failure.network (text "refused"))))

performs-failure_example :
    performs diagnose contents
      (answer second_acts refused)
      (Outcome.err Failure.cancelled ∷ Outcome.ok (record { undo = [] }) ∷ [])
    ≡ (disable ∷ [], true)
unfolding step Turn.turn Turn.turn_in Forward.open_plan Forward.check Forward.check_step Forward.ask
    Moves.blocker runner_of new Moves.independent State.start State.claim State.open_node
    State.new_tree Forward.begin Forward.launch Rounds.resolved Forward.execute Forward.advance
    Forward.act Rounds.action_key Forward.executed Forward.acted Forward.noted State.finish
    Moves.record_outcome describe decimal mix.Run.Runner.Failing.all_undo
    mix.Events.Tree.Abandon.below rollback_order Rollback.place_entries Rollback.place_entry
    Rollback.place mix.Effect.Action.is_sync mix.Effect.Action.needs_loaded_units
performs-failure_example =
    performs-failure diagnose contents root steps tree steps-Keyed tree-Entered second_acts.runner
      second_acts.tree 0 3 [] (Failure.network (text "refused"))
      (Outcome.err Failure.cancelled ∷ Outcome.ok (record { undo = [] }) ∷ []) driven refl refl
      (omega arith)

-- The run is stopped while the first action is on.
stopped :
    Driven diagnose contents
      (runner_of false root steps)
      tree
      Asked.outcome
      (Moves.stop first_acts.runner Cancellation.interrupted)
      first_acts.tree
stopped =
    Driven.stopped
      (Driven.called
        (Driven.called Driven.opened (rounds at_start.runner) none tt (Next.observe []) first_asked
          at_start-step)
        (rounds first_asked.runner) facts (Fallible.ok [], refl)
        (Next.perform (Action.enable_unit (text "nix"))) first_acts first_asked-step)
      Cancellation.interrupted

abbrev stopped_runner : Runner
stopped_runner = Moves.stop first_acts.runner Cancellation.interrupted

stopped-Driven_example :
    (n : Next) × (m : Machine ℕ) × (step diagnose contents
        (rounds stopped_runner)
        (record { runner = stopped_runner; tree = first_acts.tree; input = done (disable ∷ []) })
      ≡ Stepped.next n m)
    × (observes n ≡ false)
    × (is_some m.runner.stopped ≡ true)
unfolding Moves.stop step runner_of State.new_tree Turn.turn Turn.turn_in Forward.open_plan
    Forward.check Forward.check_step Forward.ask Moves.blocker new Moves.independent State.start
    State.claim State.open_node Forward.begin Forward.launch Rounds.resolved Forward.execute
    Forward.advance Forward.act Rounds.action_key Moves.record_outcome describe decimal
stopped-Driven_example =
    stopped-Driven diagnose contents false root steps tree steps-Keyed tree-Entered Asked.outcome
      stopped_runner first_acts.tree (done (disable ∷ [])) stopped
      (Outcome.ok (record { undo = disable ∷ [] }), refl) refl
