-- ===== src/Run/Rollback.antt =====
-- `rollback_order` of crates/core/src/run/journal.rs: what a journal of undo lists runs, in order.
-- Its two nested loops share the vectors `ordered` and `pending`, here the record `Draft`.
pub mod Flat
pub mod Contents
pub mod Reloads
use mix.Base.{List, [], ◌∷◌, ◌++◌, ◌&&◌, reverse, if◌then◌else◌, contains, remove_first}
use mix.Effect.Action.{Action, daemon_reload, is_sync, needs_loaded_units, action_eq}

pub record Draft : Type 0 where
  pub ordered : List Action
  pub pending : List Action

abbrev pub start : Draft
start = record { ordered = []; pending = [] }

-- The body of the inner loop.
unfoldable pub place : Draft → Action → Draft
place d action =
    if is_sync action
    then (if contains d.pending action then d else record d { pending = d.pending ++ action ∷ [] })
    else if needs_loaded_units action && contains d.pending daemon_reload
    then record {
      ordered = (d.ordered ++ daemon_reload ∷ []) ++ action ∷ [];
      pending = remove_first daemon_reload d.pending;
    }
    else record d { ordered = d.ordered ++ action ∷ [] }

unfoldable pub place_entry : Draft → List Action → Draft
place_entry d [] = d
place_entry d (action ∷ undo) = place_entry (place d action) undo

unfoldable pub place_entries : Draft → List (List Action) → Draft
place_entries d [] = d
place_entries d (undo ∷ rest) = place_entries (place_entry d undo) rest

abbrev pub finish : Draft → List Action
finish d = d.ordered ++ reverse d.pending

unfoldable pub rollback_order : List (List Action) → List Action
rollback_order journal = finish (place_entries start (reverse journal))
