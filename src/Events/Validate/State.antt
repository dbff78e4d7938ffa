-- ===== src/Events/Validate/State.antt =====
-- The state of the validator of crates/events/src/validate.rs, its violations and small tests.
-- The hash map of nodes is an association list, the hash sets are lists that hold no item twice.
use mix.Base.{
  ℕ, List, [], ◌∷◌, ◌++◌, Option, none, some, Bool, true, false, not, ◌&&◌, if◌then◌else◌, ◌==◌,
  nat_eq, text_eq, contains, get_or, Text, text,
}
use mix.Events.Validate.Nodes.{NodeMap}
use mix.Events.Message.{Wire, known, Status, Cancellation, NotRunReason, Kind, Result, Event, root}

pub data Violation : Type 0 where
  seq_gap : ℕ → ℕ → Violation
  request_changed first_not_root after_root : ℕ → Violation
  zero_id : Violation
  duplicate_id : ℕ → Violation
  unknown_parent parent_finished : ℕ → ℕ → Violation
  unknown_node finished_twice : ℕ → Violation
  children_open : ℕ → ℕ → Violation
  duplicate_key : ℕ → Text → Violation
  planned_missing : ℕ → Text → Violation
  not_open : ℕ → Violation
  rollback_target : ℕ → ℕ → Violation
  unspecified_status : ℕ → Violation
  unspecified_reason : ℕ → Text → Violation
  blocker_mismatch : ℕ → Text → Violation
  cancellation_mismatch result_mismatch exit_code_on_child : ℕ → Violation
  truncated : List ℕ → Violation

pub data Checked {ℓ} (A : Type ℓ) : Type ℓ where
  ok : A → Checked A
  err : Violation → Checked A

infixl 5 ◌>>=◌ ◌>>◌
abbrev pub ◌>>=◌ {ℓ κ} : {A : Type ℓ} {B : Type κ} → Checked A → (A → Checked B) → Checked B
ok a >>= f = f a
err e >>= f = err e

abbrev pub ◌>>◌ {ℓ} : {B : Type ℓ} → Checked (Unit {0}) → Checked B → Checked B
m >> k = m >>= λ _. k

-- `if test { return Err(violation) }`
abbrev pub refuse : Bool → Violation → Checked (Unit {0})
refuse true e = err e
refuse false e = ok tt

pub data Outcome : Type 0 where
  running : Outcome
  finished : Status → Outcome
  not_run : NotRunReason → Outcome

pub record Entry : Type 0 where
  pub id : Option ℕ
  pub path : Text
  pub outcome : Outcome

pub data Shape : Type 0 where
  command step process inspection other : Shape

unfoldable pub shape_of : {P : Type 0} → Option (Kind P) → Shape
shape_of none = Shape.other
shape_of (some (Kind.command _)) = Shape.command
shape_of (some (Kind.step _ _)) = Shape.step
shape_of (some (Kind.process _)) = Shape.process
shape_of (some (Kind.inspection _)) = Shape.inspection
shape_of (some _) = Shape.other

unfoldable pub accepts : {P : Type 0} → Shape → Result P → Bool
accepts Shape.process (Result.process _) = true
accepts _ (Result.process _) = false
accepts Shape.inspection (Result.inspection _) = true
accepts _ (Result.inspection _) = false
accepts Shape.command _ = true
accepts _ _ = false

pub record Record : Type 0 where
  pub parent : ℕ
  pub entry : ℕ
  pub shape : Shape
  pub planned : List Text
  pub keys : List Text
  pub open_children : List ℕ
  pub finished : Bool

pub record Validator : Type 0 where
  pub next_seq : ℕ
  pub request : Option Text
  pub nodes : NodeMap Record
  pub entries : List Entry
  pub root_finished : Bool

abbrev pub new : Validator
new = record { next_seq = 1; request = none; nodes = []; entries = []; root_finished = false }

abbrev pub is_command : {P : Type 0} → Option (Kind P) → Bool
is_command (some (Kind.command _)) = true
is_command _ = false

abbrev pub is_step : Shape → Bool
is_step Shape.step = true
is_step _ = false

abbrev pub is_unspecified : Status → Bool
is_unspecified Status.unspecified = true
is_unspecified _ = false

abbrev pub is_cancelled : Status → Bool
is_cancelled Status.cancelled = true
is_cancelled _ = false

-- `cancellation != Unspecified as i32`.
abbrev pub has_cause : Wire Cancellation → Bool
has_cause (known Cancellation.unspecified) = false
has_cause _ = true

abbrev pub is_reasonless : NotRunReason → Bool
is_reasonless NotRunReason.unspecified = true
is_reasonless _ = false

abbrev pub is_blocked : NotRunReason → Bool
is_blocked NotRunReason.blocked = true
is_blocked _ = false

abbrev pub is_empty : Text → Bool
is_empty [] = true
is_empty _ = false

abbrev pub mismatched : {P : Type 0} → Shape → Option (Result P) → Bool
mismatched shape none = false
mismatched shape (some result) = not (accepts shape result)

abbrev pub is_root_start : {P : Type 0} → Event P → Bool
is_root_start (Event.node_started node) =
    node.id == root && node.parent == 0 && is_command node.kind
is_root_start _ = false

-- The node under its id, or the refusal of an id that is missing.
abbrev pub or_refuse {ℓ} : {A : Type ℓ} → Option A → Violation → Checked A
or_refuse none e = err e
or_refuse (some a) e = ok a

abbrev pub path_at : List Entry → ℕ → Text
path_at entries i = (get_or entries i (record { id = none; path = []; outcome = running })).path

abbrev pub child_path : List Entry → Record → Text → Text
child_path entries parent key = path_at entries parent.entry ++ text "/" ++ key

abbrev pub insert_id : ℕ → List ℕ → List ℕ
insert_id id ids = if contains ids id then ids else id ∷ ids
