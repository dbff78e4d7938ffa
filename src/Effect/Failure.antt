-- ===== src/Effect/Failure.antt =====
-- crates/core/src/effect/failure.rs: how an action or an observation fails, and what a performed
-- action leaves to undo. `Unfixable` is of crates/core/src/ops/health/mod.rs.
use mix.Base.{List, Option, Text}
use mix.Effect.Types.{ℤ}
use mix.Effect.Action.{Action}

pub record Performed : Type 0 where
  pub undo : List Action

pub data Unfixable : Type 0 where
  not_a_directory missing_user missing_runtime unrecovered in_the_way outside masked newer :
      Unfixable

pub data UnitOperation : Type 0 where
  inspect reload enable disable start stop restart : UnitOperation

pub record UnitFailure : Type 0 where
  pub operation : UnitOperation
  pub unit : Text
  pub job_result : Text
  pub active_state : Text
  pub sub_state : Text
  pub unit_result : Text
  pub invocation : Option Text

pub record CollisionFailure : Type 0 where
  pub program : Text
  pub status : Option ℤ
  pub output_tail : Text
  pub file : Text
  pub packages : Text × Text

pub data Failure : Type 0 where
  conflict : Text → Text → Text → Failure
  io : Text → Text → Failure
  command_failed : Text → Option ℤ → Text → Failure
  no_inodes : Text → Option ℤ → Text → Failure
  out_of_memory : Text → Option ℤ → Text → Failure
  collision : CollisionFailure → Failure
  spawn_failed : Text → Text → Failure
  unit : UnitFailure → Failure
  systemd_unreachable : Failure
  network : Text → Failure
  integrity : Text → Text → Text → Failure
  cancelled : Failure
  unrepairable : Text → Unfixable → Failure

pub data Outcome : Type 0 where
  ok : Performed → Outcome
  err : Failure → Outcome
