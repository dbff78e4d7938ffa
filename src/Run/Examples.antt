-- ===== src/Run/Examples.antt =====
-- Journals of requests that install and start a unit, on which the theorems of this folder run.
use mix.Base.{
  ℕ, List, [], ◌∷◌, ◌++◌, ◌≡◌, ◌≢◌, refl, ◌≤◌, arith, true, false, none, filter, contains, count,
  ltb, Text, text,
}
use mix.Effect.Action.{
  action_eq, Action-discrete, Action, stop_unit, enable_unit, daemon_reload, restart_unit, discard,
  is_sync, needs_loaded_units,
}
use mix.Run.Rollback.{rollback_order, place_entries, place_entry, place}
use mix.Run.Rollback.Contents.{
  is_plain, rollback_order-plain, contains-rollback_order, rollback_order-once,
}
use mix.Run.Rollback.Reloads.{reload_before_units}
use mix.Run.Journal.{
  Record, began, prepared, done, failed, reverted, roll_back, recover, recover_changes, confirmed,
  confirmed_from, latest_from, still_all, still, in_doubt,
}
use mix.Run.Journal.Crash.{
  made, Change, trace, undos, reverts, confirmed_undo, recover_resumes, recover-crash, Recovers,
}

abbrev unit : Text
unit = text "nix-daemon.service"

abbrev unit_file : Action
unit_file =
    discard (text "/etc/systemd/system/nix-daemon.service")
      (record { dev = 1; ino = 7; born = none })

-- The unit was enabled, its file replaced, and the unit started.
abbrev journal : List (List Action)
journal =
    (enable_unit unit ∷ restart_unit unit ∷ [])
    ∷ (unit_file ∷ daemon_reload ∷ [])
    ∷ (stop_unit unit ∷ restart_unit unit ∷ [])
    ∷ []

rollback_order_example :
    rollback_order journal
    ≡ stop_unit unit ∷ unit_file ∷ daemon_reload ∷ enable_unit unit ∷ restart_unit unit ∷ []
unfolding rollback_order place_entries place_entry place is_sync needs_loaded_units Action-discrete
    mix.Base.ℕ_discrete
rollback_order_example = refl

rollback_order-plain_example :
    filter is_plain (rollback_order journal) ≡ stop_unit unit ∷ unit_file ∷ enable_unit unit ∷ []
unfolding is_sync
rollback_order-plain_example = rollback_order-plain journal

contains-rollback_order_example : contains (rollback_order journal) (restart_unit unit) ≡ true
unfolding Action-discrete mix.Base.ℕ_discrete
contains-rollback_order_example = contains-rollback_order journal (restart_unit unit)

rollback_order-once_example : count (restart_unit unit) (rollback_order journal) ≤ 1
unfolding is_sync
rollback_order-once_example = rollback_order-once journal (restart_unit unit) refl (λ e. cc)

reload_before_units_example :
    (xs ys zs more : List Action) × (rollback_order journal
      ≡ xs ++ daemon_reload ∷ ys ++ enable_unit unit ∷ zs)
    × (filter is_plain xs
        ≡ filter is_plain (stop_unit unit ∷ restart_unit unit ∷ unit_file ∷ []) ++ more)
unfolding needs_loaded_units
reload_before_units_example =
    reload_before_units journal (stop_unit unit ∷ restart_unit unit ∷ unit_file ∷ []) []
      (restart_unit unit ∷ []) (enable_unit unit) refl refl

-- A rollback that was cut off behind its first revert.
abbrev records : List Record
records =
    began (text "r1")
    ∷ prepared 1 (unit_file ∷ [])
    ∷ done 1
    ∷ prepared 2 (stop_unit unit ∷ [])
    ∷ done 2
    ∷ reverted (stop_unit unit)
    ∷ []

recover_example : recover records ≡ roll_back [] (unit_file ∷ [])
unfolding recover recover_changes confirmed confirmed_from latest_from still_all still in_doubt
    rollback_order place_entries place_entry place is_sync needs_loaded_units Action-discrete
    mix.Base.ℕ_discrete
recover_example = refl

recover_resumes_example :
    contains (unit_file ∷ []) (stop_unit unit)
    ≡ ltb
        (count (stop_unit unit) (reverts records))
        (count (stop_unit unit) (confirmed_undo records))
recover_resumes_example =
    recover_resumes records [] (unit_file ∷ []) (stop_unit unit) recover_example

abbrev changes : List Change
changes = made 1 (unit_file ∷ daemon_reload ∷ []) ∷ made 2 (enable_unit unit ∷ []) ∷ []

recover-crash_example :
    Recovers (recover (began (text "r1") ∷ trace changes ++ [])) [] (rollback_order (undos changes))
    × Recovers
        (recover (began (text "r1") ∷ trace changes ++ prepared 3 (stop_unit unit ∷ []) ∷ []))
        (rollback_order ((stop_unit unit ∷ []) ∷ []))
        (rollback_order (undos changes))
    × Recovers
        (recover
          (began (text "r1") ∷ trace changes ++ prepared 3 (stop_unit unit ∷ []) ∷ failed 3 ∷ []))
        []
        (rollback_order (undos changes))
recover-crash_example = recover-crash (text "r1") changes 3 (stop_unit unit ∷ []) refl
