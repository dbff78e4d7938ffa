-- ===== src/Machine/Examples.antt =====
-- A machine that is set up from nothing and torn down again, the last step refused.
use mix.Base.{none, List, [], ◌∷◌, some, ◌≡◌, refl, arith, text, text_eq, length}
use mix.Effect.Types.{UserSpec}
use mix.Effect.Action.{Action, is_sync, needs_loaded_units}
use mix.Effect.Failure.{Outcome}
use mix.Run.Rollback.{rollback_order, place_entries, place_entry, place}
use mix.Declared.State.{text_leb, sort_texts, insert_text}
use mix.Machine.Map.{lookup, insert, remove, change, change_all, key_of}
use mix.Machine.World.{World, apply}
use mix.Machine.Valid.{IsValid, applied}
use mix.Machine.Rollback.{session, rollback-session, session-IsValid, AllDistinct}
use mix.Machine.Again.{apply-again}

abbrev nothing : World
nothing = record { groups = []; users = [] }

nothing-IsValid : IsValid nothing
unfolding lookup
nothing-IsValid = record {
  groups_sorted = tt;
  users_sorted = tt;
  members_ascend = λ n g found. absurd (cc);
  members_once = λ n p g found. absurd (cc);
  members_exist = λ n p g found more. absurd (cc);
  gids_differ = λ n m g h found found' same. absurd (cc);
  uids_differ = λ n m u v found found' same. absurd (cc);
  primary_exists = λ n u user. absurd (cc);
}

abbrev build_user : UserSpec
build_user = record {
  name = text "nixbld1";
  uid = 30001;
  gid = 30000;
  home = text "/var/empty";
  shell = text "/usr/sbin/nologin";
  comment = text "mix build user 1";
  groups = text "nixbld" ∷ [];
}

abbrev set_up : List Action
set_up =
    Action.add_group (text "nixbld") 30000
    ∷ Action.add_group (text "mix-users") 30100
    ∷ Action.add_user build_user
    ∷ Action.add_member (text "mix-users") (text "nixbld1")
    ∷ []

set_up-AllDistinct : AllDistinct set_up
set_up-AllDistinct = (tt, (tt, ((λ n. ground arith), (tt, tt))))

abbrev machine : World
machine = (session set_up nothing []).1

machine-IsValid : IsValid machine
machine-IsValid = session-IsValid set_up nothing nothing-IsValid refl set_up-AllDistinct

-- The user leaves, the group of build users gets another id, and then its old one is not there.
abbrev tear_down : List Action
tear_down =
    Action.remove_member (text "mix-users") (text "nixbld1")
    ∷ Action.delete_user (text "nixbld1") (30001, 30000) (text "mix build user 1")
    ∷ Action.set_group_gid (text "nixbld") 40000 30000
    ∷ Action.delete_group (text "mix-users") 30100
    ∷ Action.delete_group (text "nixbld") 30000
    ∷ []

tear_down-AllDistinct : AllDistinct tear_down
tear_down-AllDistinct = (tt, (tt, (tt, (tt, (tt, tt)))))

torn_down : length (session tear_down machine []).0 ≡ 4
unfolding apply lookup key_of insert text_leb change sort_texts insert_text change_all remove
torn_down = refl

session-IsValid_example : IsValid (session tear_down machine []).1
session-IsValid_example =
    session-IsValid tear_down machine machine-IsValid refl tear_down-AllDistinct

rollback-session_example :
    applied (rollback_order (session tear_down machine []).0) (session tear_down machine []).1
    ≡ some machine
rollback-session_example =
    rollback-session tear_down machine machine-IsValid refl tear_down-AllDistinct

abbrev leaves : Action
leaves = Action.remove_member (text "mix-users") (text "nixbld1")

apply-again_example :
    apply leaves (apply leaves machine).1
    ≡ (Outcome.ok (record { undo = [] }), (apply leaves machine).1)
unfolding apply lookup key_of insert text_leb change sort_texts insert_text change_all remove
apply-again_example =
    apply-again leaves machine (apply leaves machine).1
      (record { undo = Action.add_member (text "mix-users") (text "nixbld1") ∷ [] }) machine-IsValid
      refl refl

-- A group that lists who is no user is deleted, and what undoes that fails at the member.
abbrev stale : World
stale = record {
  groups = (text "nixbld", record { gid = 30000; members = text "ghost" ∷ [] }) ∷ [];
  users = [];
}

abbrev delete_stale : List Action
delete_stale = Action.delete_group (text "nixbld") 30000 ∷ []

stale_stays_deleted :
    applied (rollback_order (session delete_stale stale []).0) (session delete_stale stale []).1
    ≡ none
unfolding apply rollback_order place_entries place_entry place is_sync needs_loaded_units lookup
    key_of insert text_leb change sort_texts insert_text remove
stale_stays_deleted = refl
