-- ===== src/Run/Journal.antt =====
-- The records that a request writes before and after each change, and what a crash leaves to do:
-- crates/core/src/run/journal.rs. The sets of numbers are lists here, since only `contains` reads
-- them. The closure `still` mutates `reverted`, so it returns what is left of it.
pub mod Still
pub mod Crash
use mix.Base.{
  ℕ, zero, suc, List, [], ◌∷◌, ◌++◌, Option, none, some, Bool, true, false, not, ◌&&◌, ◌||◌, map,
  filter, any, find, flat_map, filter_map, if◌then◌else◌, Eq, ◌==◌, nat_eq, contains, Text,
}
use mix.Effect.Action.{Action, restore, action_eq}
use mix.Effect.Describe.{describe}
use mix.Effect.Observe.{Abandoned}
use mix.Run.Rollback.{rollback_order}

pub data Record : Type 0 where
  began : Text → Record
  prepared : ℕ → List Action → Record
  done : ℕ → Record
  settled : ℕ → List Action → Record
  failed : ℕ → Record
  reverted : Action → Record
  committing ended : Record

pub data Recovery : Type 0 where
  nothing : Recovery
  roll_back : List Action → List Action → Recovery
  finish_commit : List Text → Recovery

abbrev pub Entry : Type 0
Entry = ℕ × List Action

-- One round of the loop of `confirmed`: what is prepared, and what the record confirms.
abbrev pub prepare : List Entry → Record → List Entry
prepare entries (prepared seq undo) = filter (λ e. not (e.0 == seq)) entries ++ (seq, undo) ∷ []
prepare entries _ = entries

abbrev pub confirms : List Entry → Record → List Entry
confirms entries (done seq) = elim (find (λ e. e.0 == seq) entries) [
  | none ↦ []
  | some e ↦ (seq, e.1) ∷ []
]
confirms entries (settled seq undo) = (seq, undo) ∷ []
confirms entries _ = []

unfoldable pub confirmed_from : List Entry → List Record → List Entry
confirmed_from entries [] = []
confirmed_from entries (r ∷ records) =
    confirms entries r ++ confirmed_from (prepare entries r) records

unfoldable pub confirmed : List Record → List Entry
confirmed records = confirmed_from [] records

abbrev pub restore_source : Action → Option Text
restore_source (restore _ from _) = some from
restore_source _ = none

unfoldable pub pending : List Record → List Text
pending records = filter_map restore_source (flat_map (λ e. e.1) (confirmed records))

-- `iter().position(...)` with `swap_remove` of what it finds: the last item takes its place.
abbrev pub split_last : List Action → Option (List Action × Action)
split_last [] = none
split_last (x ∷ xs) = elim (split_last xs) [ none ↦ some ([], x) | some (ys, y) ↦ some (x ∷ ys, y) ]

abbrev pub swap_remove_first : Action → List Action → List Action
swap_remove_first a [] = []
swap_remove_first a (x ∷ xs) =
    if x == a
    then (elim (split_last xs) [ none ↦ [] | some (ys, y) ↦ y ∷ ys ])
    else x ∷ swap_remove_first a xs

-- `still`: the actions of `undo` that were not reverted yet, and the reverts that are left.
unfoldable pub still : List Action → List Action → List Action × List Action
still [] reverts = ([], reverts)
still (action ∷ undo) reverts =
    let hit = contains reverts action in
    let (kept, left) = still undo (if hit then swap_remove_first action reverts else reverts) in
    (if hit then kept else action ∷ kept, left)

unfoldable pub still_all : List (List Action) → List Action → List (List Action) × List Action
still_all [] reverts = ([], reverts)
still_all (undo ∷ rest) reverts =
    let (kept, left) = still undo reverts in
    let (more, left') = still_all rest left in (kept ∷ more, left')

abbrev pub failed_seq : Record → Option ℕ
failed_seq (failed seq) = some seq
failed_seq _ = none

abbrev pub reverted_action : Record → Option Action
reverted_action (reverted action) = some action
reverted_action _ = none

-- `entry.1 = undo` where the number is there, else a push.
abbrev pub supersede : ℕ → List Action → List Entry → List Entry
supersede seq undo [] = (seq, undo) ∷ []
supersede seq undo (e ∷ entries) =
    if e.0 == seq then (e.0, undo) ∷ entries else e ∷ supersede seq undo entries

-- The loop that collects `latest`: prepared, and neither confirmed nor failed.
unfoldable pub latest_from : List ℕ → List ℕ → List Entry → List Record → List Entry
latest_from done_seqs failed_seqs entries [] = entries
latest_from done_seqs failed_seqs entries (prepared seq undo ∷ records) =
    latest_from done_seqs failed_seqs
      (if not (contains done_seqs seq) && not (contains failed_seqs seq)
        then supersede seq undo entries
        else entries)
      records
latest_from done_seqs failed_seqs entries (_ ∷ records) =
    latest_from done_seqs failed_seqs entries records

unfoldable pub in_doubt : List Entry → List Action → List Action
in_doubt [] reverts = []
in_doubt (e ∷ entries) reverts =
    let (kept, left) = still e.1 reverts in rollback_order (kept ∷ []) ++ in_doubt entries left

abbrev pub is_ended : Record → Bool
is_ended ended = true
is_ended _ = false

abbrev pub is_committing : Record → Bool
is_committing committing = true
is_committing _ = false

abbrev pub rolled_back : List Action → List Action → Recovery
rolled_back [] [] = nothing
rolled_back uncertain certain = roll_back uncertain certain

-- The part of `recover` behind its two early returns.
unfoldable pub recover_changes : List Record → Recovery
recover_changes records =
    let entries = confirmed records in
    let failed_seqs = filter_map failed_seq records in
    let reverts = filter_map reverted_action records in
    let (journal, left) = still_all (map (λ e. e.1) entries) reverts in
    let latest = latest_from (map (λ e. e.0) entries) failed_seqs [] records in
    rolled_back (in_doubt latest left) (rollback_order journal)

unfoldable pub recover : List Record → Recovery
unfolding recover_changes
recover records =
    if any is_ended records
    then nothing
    else if any is_committing records
    then finish_commit (pending records)
    else recover_changes records

unfoldable pub abandoned : Text → List Record → Abandoned
abandoned request records = record {
  request = request;
  pending = elim (recover records) [
    | roll_back uncertain certain ↦ map (λ a. (describe a).1) (certain ++ uncertain)
    | finish_commit paths ↦ paths
    | nothing ↦ []
  ];
}
