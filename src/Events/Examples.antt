-- ===== src/Events/Examples.antt =====
-- A session: an installation with two planned steps, the second of which is never reached.
use mix.Base.{
  ℕ, List, [], ◌∷◌, none, some, false, not, ◌≡◌, refl, nat_eq, Text, text, text_eq, is_some, ◌<◌,
  length, ap, sym, ◌==◌, Bool, true,
}
use mix.Events.Message.{root, Kind, Status, Verb, Progress, Event}
use mix.Events.Validate.State.{Validator, Checked, new}
use mix.Events.Validate.Check.{push_all, validate}
use mix.Events.Validate.Stream.{numbered}
use mix.Events.Outbox.{slot, Slot-discrete, empty, push_events, drain}
use mix.Events.Outbox.Drain.{drain-push_events}
use mix.Events.Outbox.Serving.{Move, received, pushes, Thinned, received-Thinned}
use mix.Events.Outbox.Reading.{validate-received}
use mix.Events.Tree.State.{Tree, Start, Open, Ending, Used, ok, get, new_tree, ending}
use mix.Events.Tree.Calls.{Call, apply}
use mix.Events.Tree.Session.{
  Session, begun, called, command_start, is_valid, goes_through, push_all-Session, validate-Session,
  parent-Session, apply-closed,
}

abbrev request : Text
request = text "r1"

abbrev planned : List Text
planned = text "plan" ∷ text "apply" ∷ []

abbrev started : Tree ℕ
started = new_tree (command_start (text "install") 0 planned false)

started-Session : Session request started
started-Session = begun (text "install") 0 planned false (refl, (refl, tt))

abbrev step : Start ℕ
step = record {
  key = text "plan";
  kind = Kind.step Verb.installing (text "hello");
  planned = [];
  shielded = false;
}

-- The tree behind a call that goes through.
abbrev behind : Used (Tree ℕ) → Tree ℕ → Tree ℕ
behind (ok t) _ = t
behind (Used.err _) t = t

abbrev stepping : Tree ℕ
stepping = behind (apply started (Call.start root step)) started

stepping-Session : Session request stepping
unfolding apply mix.Events.Tree.State.start new_tree
stepping-Session = called started-Session (Call.start root step) (λ v e. (tt, refl)) refl

abbrev stepped : Tree ℕ
stepped = behind (apply stepping (Call.finish 2 (ending Status.succeeded))) stepping

stepped-Session : Session request stepped
unfolding apply mix.Events.Tree.State.start new_tree mix.Events.Tree.State.finish
stepped-Session =
    called stepping-Session (Call.finish 2 (ending Status.succeeded))
      (λ v e r at. record { decided' = refl; caused = refl; fitting = refl; coded = refl }) refl

abbrev whole : Tree ℕ
whole = behind (apply stepped (Call.finish root (ending Status.succeeded))) stepped

whole-Session : Session request whole
unfolding apply mix.Events.Tree.State.start new_tree mix.Events.Tree.State.finish
whole-Session =
    called stepped-Session (Call.finish root (ending Status.succeeded))
      (λ v e r at. record { decided' = refl; caused = refl; fitting = refl; coded = refl }) refl

-- The root's start, the step's start and end, the report on `apply`, and the root's end.
whole_events : length whole.outbox ≡ 5
unfolding apply mix.Events.Tree.State.start new_tree mix.Events.Tree.State.finish
whole_events = refl

push_all-Session_example :
    (v : Validator) × (push_all new (numbered request 1 whole.outbox) ≡ Checked.ok v)
push_all-Session_example = push_all-Session request whole-Session

validate-Session_example :
    is_valid (validate (numbered request 1 whole.outbox))
    ≡ not (is_some (get whole.open_nodes root))
validate-Session_example = validate-Session request whole-Session

abbrev node : Open ℕ
node = record { parent = root; planned = []; used = []; children = 0; bytes = none; builds = none }

parent-Session_example : (p : Open ℕ) × (get stepping.open_nodes root ≡ some p) × (root < 2)
unfolding apply mix.Events.Tree.State.start new_tree
parent-Session_example = parent-Session request 2 node stepping-Session refl (λ e. cc)

apply-closed_example : goes_through (apply whole (Call.start root step)) ≡ false
unfolding apply mix.Events.Tree.State.start new_tree mix.Events.Tree.State.finish
apply-closed_example = apply-closed request (Call.start root step) whole-Session refl

-- A snapshot that a later one supersedes, between the start and the end of the root.
abbrev snapshots : List (Event ℕ)
snapshots =
    Event.node_progress root (some (Progress.bytes 1))
    ∷ Event.node_progress root (some (Progress.builds 1))
    ∷ Event.node_progress root (some (Progress.bytes 2))
    ∷ []

drain-push_events_example :
    (drain request (push_events empty snapshots)).0
    ≡ numbered request 1 (
        Event.node_progress root (some (Progress.builds 1))
        ∷ Event.node_progress root (some (Progress.bytes 2))
        ∷ [])
unfolding slot Slot-discrete mix.Base.ℕ_discrete
drain-push_events_example = drain-push_events request snapshots

-- A consumer that asks behind every push.
abbrev asking : List (Event ℕ) → List (Move ℕ)
asking [] = []
asking (event ∷ events) = Move.pushed event ∷ Move.asked ∷ asking events

validate-received_example :
    ((v : Validator) × (push_all new (received request (asking whole.outbox)) ≡ Checked.ok v))
    × (is_valid (validate (received request (asking whole.outbox)))
        ≡ not (is_some (get whole.open_nodes root)))
unfolding apply mix.Events.Tree.State.start new_tree mix.Events.Tree.State.finish
validate-received_example = validate-received request (asking whole.outbox) whole-Session refl

-- The first snapshot is out before the one that would supersede it is pushed; the next is superseded.
abbrev asked_late : List (Move ℕ)
asked_late =
    Move.pushed (Event.node_progress root (some (Progress.bytes 1)))
    ∷ Move.asked
    ∷ Move.pushed (Event.node_progress root (some (Progress.bytes 2)))
    ∷ Move.pushed (Event.node_progress root (some (Progress.bytes 3)))
    ∷ []

received-Thinned_example :
    (fewer : List (Event ℕ)) × Thinned (pushes asked_late) fewer
    × (received request asked_late ≡ numbered request 1 fewer)
received-Thinned_example = received-Thinned request asked_late

late_drain :
    received request asked_late
    ≡ numbered request 1 (
        Event.node_progress root (some (Progress.bytes 1))
        ∷ Event.node_progress root (some (Progress.bytes 3))
        ∷ [])
unfolding received slot Slot-discrete mix.Base.ℕ_discrete mix.Events.Outbox.push
    mix.Events.Outbox.pop mix.Events.Outbox.next_from drain mix.Events.Outbox.drain_rounds
    mix.Events.Outbox.Serving.serve numbered
late_drain = refl
