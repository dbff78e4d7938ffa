-- ===== src/Run/Locks.antt =====
-- crates/core/src/run/locks.rs: the locks that a request needs. A request is the field of its
-- message that the locks depend on.
use mix.Base.{Bool, true, false}

pub data Request : Type 0 where
  bootstrap user_remove purge repair install remove update doctor explain list : Request
  clean : Bool → Request

pub data Need : Type 0 where
  nothing exclusive shared_for_user observe : Need

unfoldable pub locks_for : Request → Bool → Need
locks_for Request.explain true = Need.nothing
locks_for Request.list true = Need.nothing
locks_for _ true = Need.observe
locks_for Request.bootstrap false = Need.exclusive
locks_for Request.purge false = Need.exclusive
locks_for Request.repair false = Need.exclusive
locks_for (Request.clean true) false = Need.exclusive
locks_for Request.install false = Need.shared_for_user
locks_for Request.remove false = Need.shared_for_user
locks_for Request.update false = Need.shared_for_user
locks_for Request.doctor false = Need.shared_for_user
locks_for Request.user_remove false = Need.shared_for_user
locks_for (Request.clean false) false = Need.shared_for_user
locks_for Request.explain false = Need.nothing
locks_for Request.list false = Need.nothing
