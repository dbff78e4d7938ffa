-- ===== src/Effect/Observe.antt =====
-- crates/core/src/effect/observe.rs: what a step asks of the machine, and the answers.
-- An `ErrorKind` is its name, as `mix_events::io_kind` writes it.
use mix.Base.{ℕ, List, Option, Bool, Text, text_eq}
use mix.Effect.Types.{ℤ, Owner, Digest, FileId, InvokingUser}

pub data Query : Type 0 where
  path : Text → Query
  contents : Text → Query
  group : Text → Query
  user : Text → Query
  unit : Text → Query
  unit_links : Text → Query
  profile : InvokingUser → Query
  tree_owner : Text → Query
  repository : InvokingUser → Query
  active_list : InvokingUser → Query
  active_lock : InvokingUser → Query
  journals : Text → Query
  leftovers : Text → Query
  strangers : Text → Owner → Query
  clobbered : InvokingUser → Query
  program : Text → Text → Query
  linked : InvokingUser → Query
  accounts : Query

pub record ProfileFacts : Type 0 where
  pub generations : List ℕ
  pub active : Option ℕ
  pub dangling : List ℕ

pub data Kind : Type 0 where
  missing : Kind
  unreadable : Text → Kind
  directory file symlink other : Kind

pub record PathFacts : Type 0 where
  pub kind : Kind
  pub mode : ℕ
  pub owner : Owner
  pub id : Option FileId
  pub digest : Option Digest
  pub changed : Option (ℤ × ℕ)

pub record GroupFacts : Type 0 where
  pub gid : ℕ
  pub members : List Text

pub record UserFacts : Type 0 where
  pub uid : ℕ
  pub gid : ℕ
  pub home : Text
  pub shell : Text
  pub comment : Text

pub record UnitFacts : Type 0 where
  pub load_state : Text
  pub active_state : Text
  pub file_state : Text
  pub needs_reload : Bool
  pub active_since : Option (ℤ × ℕ)

pub record Abandoned : Type 0 where
  pub request : Text
  pub pending : List Text

pub record ProgramFacts : Type 0 where
  pub same : Bool
  pub source : Option (List ℕ)

pub data Fact : Type 0 where
  path : PathFacts → Fact
  contents : Option (List ℕ) → Fact
  group : Option GroupFacts → Fact
  user : Option UserFacts → Fact
  unit : UnitFacts → Fact
  unit_links : List (Text × FileId) → Fact
  profile : ProfileFacts → Fact
  tree_owner : Option ℕ → Fact
  repository : Bool → Bool → Fact
  journals : List Abandoned → Fact
  leftovers : List (Text × FileId) → Fact
  stranger : Option (Text × Owner) → Fact
  clobbered : List Text → Fact
  program : ProgramFacts → Fact
  linked : List (Text × FileId) → Fact
  accounts : List (Text × UserFacts) → Fact
