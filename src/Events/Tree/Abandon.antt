-- ===== src/Events/Tree/Abandon.antt =====
-- The endings of crates/events/src/tree.rs, and `Tree::abandon`, which closes a node with all that
-- is open under it. `stopped` is what the tree's callback returns.
use mix.Base.{
  ℕ, zero, suc, ◌+◌, List, [], ◌∷◌, Option, none, some, Bool, true, false, ◌&&◌, ◌||◌,
  if◌then◌else◌, ◌==◌, nat_eq, is_some, filter, length,
}
use mix.Events.Message.{Status, Cancellation, Diagnostic, Result}
use mix.Events.Tree.State.{Tree, Ending, ending, Used, ok, err, not_open, panicked, get, finish}

abbrev pub code_usage : ℕ
code_usage = 73

abbrev pub code_confirmation_required : ℕ
code_confirmation_required = 75

-- The exit code of a status, whether it was misused, and whether problems remain.
unfoldable pub exit_for : Status → Bool → Bool → ℕ
exit_for Status.failed misused problems_remain = if misused then 2 else 1
exit_for Status.cancelled misused problems_remain = 130
exit_for _ misused problems_remain = if problems_remain then 3 else 0

-- The numbers below the first, the highest first.
unfoldable pub below : ℕ → List ℕ
below zero = []
below (suc n) = n ∷ below n

module _ {P : Type 0} where
  abbrev pub succeeded : Ending P
  succeeded = ending Status.succeeded

  abbrev pub already_satisfied : Ending P
  already_satisfied = ending Status.already_satisfied

  abbrev pub with_diagnostic : Ending P → Diagnostic P → Ending P
  with_diagnostic e diagnostic = record e { diagnostic = some diagnostic }

  abbrev pub failed : Diagnostic P → Ending P
  failed diagnostic = with_diagnostic (ending Status.failed) diagnostic

  abbrev pub cancelled : Cancellation → Ending P
  cancelled cause = record (ending Status.cancelled) { cancellation = cause }

  abbrev pub with_result : Ending P → Result P → Ending P
  with_result e result = record e { result = some result }

  abbrev pub with_exit_code : Ending P → ℕ → Ending P
  with_exit_code e exit_code = record e { exit_code = exit_code }

  abbrev pub is_misuse : Option (Diagnostic P) → Bool
  is_misuse none = false
  is_misuse (some d) = d.code == code_usage || d.code == code_confirmation_required

  unfoldable pub for_root : Ending P → Bool → Ending P
  unfolding exit_for
  for_root e problems_remain =
      with_exit_code e (exit_for e.status (is_misuse e.diagnostic) problems_remain)

  unfoldable pub abandoned : Option Cancellation → Ending P
  abandoned (some cause) = cancelled cause
  abandoned none = ending Status.failed

  -- The loop goes to the parent, whose id is lower, so a round more than the id is enough.
  unfoldable pub descends_rounds : ℕ → Tree P → ℕ → ℕ → Bool
  descends_rounds zero t node ancestor = false
  descends_rounds (suc rounds) t node ancestor =
      let found = get t.open_nodes node in
      let above : Bool = elim found [
        | none ↦ false
        | some o ↦ descends_rounds rounds t o.parent ancestor
      ] in
      if node == ancestor then true else above

  unfoldable pub descends_from : Tree P → ℕ → ℕ → Bool
  descends_from t node ancestor = descends_rounds (node + 1) t node ancestor

  unfoldable pub open_under : Tree P → ℕ → List ℕ
  open_under t id =
      filter (λ node. is_some (get t.open_nodes node) && descends_from t node id)
        (below (length t.open_nodes))

  unfoldable pub finish_all : Tree P → List ℕ → Ending P → Used (Tree P)
  finish_all t [] e = ok t
  finish_all t (node ∷ nodes) e = elim (finish t node e) [
    | ok t' ↦ finish_all t' nodes e
    | err _ ↦ err panicked
  ]

  unfoldable pub abandon : Option Cancellation → Tree P → ℕ → Used (Tree P)
  abandon stopped t id = elim (open_under t id) [
    | [] ↦ err (not_open id)
    | node ∷ nodes ↦ finish_all t (node ∷ nodes) (abandoned stopped)
  ]
