-- ===== src/Events/Message.antt =====
-- The messages of crates/events/proto/mix/events/v1/events.proto that the tree and the validator
-- read. `P` stands for the contents that neither looks into: the fields of commands, processes,
-- results and details. A field that holds an enumeration is a number on the wire: `other` is one
-- that the enumeration does not list.
use mix.Base.{ℕ, List, Option, Bool, Text}
use mix.Effect.Types.{ℤ}
use mix.Effect.Describe.{Operation}

pub data Wire (E : Type 0) : Type 0 where
  known : E → Wire E
  other : ℤ → Wire E

-- A getter of the generated code: what is not listed reads as the default.
abbrev pub decoded : {E : Type 0} → E → Wire E → E
decoded default (known e) = e
decoded default (other _) = default

pub data Status : Type 0 where
  unspecified succeeded already_satisfied failed cancelled : Status

pub data Cancellation : Type 0 where
  unspecified interrupted terminated client_gone : Cancellation

pub data NotRunReason : Type 0 where
  unspecified not_reached skipped blocked : NotRunReason

pub data Severity : Type 0 where
  unspecified error warning : Severity

pub data Verb : Type 0 where
  unspecified creating removing installing writing configuring activating recording restarting :
      Verb
  repairing recovering updating reclaiming : Verb

pub data Kind (P : Type 0) : Type 0 where
  command : P → Kind P
  plan : Text → Kind P
  step : Verb → Text → Kind P
  rollback : ℕ → Kind P
  process : P → Kind P
  download : P → Kind P
  inspection : P → Kind P
  lock_wait : P → Kind P
  nix_activity : P → Kind P
  action : Operation → Text → Kind P

pub data Result (P : Type 0) : Type 0 where
  bootstrap install remove repair doctor inspection process clean explain : P → Result P
  list update user_remove purge : P → Result P

pub data Progress (P : Type 0) : Type 0 where
  bytes builds line command fetch build stopping command_finished observed journaled :
      P → Progress P
  substitution waiting : P → Progress P

pub record NodeStarted (P : Type 0) : Type 0 where
  pub id : ℕ
  pub parent : ℕ
  pub key : Text
  pub planned : List Text
  pub shielded : Bool
  pub kind : Option (Kind P)

-- The causes and the detail are contents.
pub record Diagnostic (P : Type 0) : Type 0 where
  pub code : ℕ
  pub severity : Severity
  pub node : ℕ
  pub message : Text
  pub contents : P

pub record NodeFinished (P : Type 0) : Type 0 where
  pub id : ℕ
  pub status : Wire Status
  pub diagnostic : Option (Diagnostic P)
  pub exit_code : ℕ
  pub cancellation : Wire Cancellation
  pub result : Option (Result P)

pub record NotRun : Type 0 where
  pub parent : ℕ
  pub key : Text
  pub reason : Wire NotRunReason
  pub blocked_by : Text

pub data Event (P : Type 0) : Type 0 where
  node_started : NodeStarted P → Event P
  node_progress : ℕ → Option (Progress P) → Event P
  node_finished : NodeFinished P → Event P
  not_run : NotRun → Event P
  diagnostic : Diagnostic P → Event P

pub record Envelope (P : Type 0) : Type 0 where
  pub seq : ℕ
  pub request : Text
  pub event : Option (Event P)

-- `pub const ROOT` of crates/events/src/tree.rs.
abbrev pub root : ℕ
root = 1
