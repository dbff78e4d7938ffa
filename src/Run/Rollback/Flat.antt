-- ===== src/Run/Rollback/Flat.antt =====
-- The nested loops are one loop over the actions, latest entry first; placing only ever appends.
use mix.Base.{
  List, [], ◌∷◌, ◌++◌, ◌≡◌, refl, sym, ap, ◌∙◌, arith, reverse, append-nil, append_assoc, flat_map,
  true, false, ◌&&◌, Bool-cases, inl, inr, contains, remove_first,
}
use mix.Effect.Action.{Action, daemon_reload, is_sync, needs_loaded_units, action_eq}
use mix.Run.Rollback.{Draft, start, place, place_entry, place_entries, finish, rollback_order}

-- The undo actions of a journal, the latest entry first.
abbrev pub unwound : List (List Action) → List Action
unwound journal = flat_map (λ undo. undo) (reverse journal)

pub place_entry-append :
    (d : Draft) (xs ys : List Action) → place_entry d (xs ++ ys) ≡ place_entry (place_entry d xs) ys
unfolding place_entry
place_entry-append d [] ys = refl
place_entry-append d (x ∷ xs) ys = place_entry-append (place d x) xs ys

place_entries-flat :
    (d : Draft) (journal : List (List Action))
    → place_entries d journal ≡ place_entry d (flat_map (λ undo. undo) journal)
unfolding place_entries place_entry
place_entries-flat d [] = refl
place_entries-flat d (undo ∷ rest) =
    place_entries-flat (place_entry d undo) rest ∙ sym (place_entry-append d undo _)

pub rollback_order-flat :
    (journal : List (List Action))
    → rollback_order journal ≡ finish (place_entry start (unwound journal))
unfolding rollback_order
rollback_order-flat journal = ap finish (place_entries-flat start (reverse journal))

-- The four ways in which an action is placed.
pub data Placed (d : Draft) (a : Action) (d' : Draft) : Type 0 where
  merged : is_sync a ≡ true → contains d.pending a ≡ true → d' ≡ d → Placed d a d'
  deferred :
      is_sync a ≡ true
      → contains d.pending a ≡ false
      → d' ≡ record d { pending = d.pending ++ a ∷ [] }
      → Placed d a d'
  reloaded :
      is_sync a ≡ false
      → needs_loaded_units a ≡ true
      → contains d.pending daemon_reload ≡ true
      → d' ≡ record {
        ordered = (d.ordered ++ daemon_reload ∷ []) ++ a ∷ [];
        pending = remove_first daemon_reload d.pending;
      }
      → Placed d a d'
  ordinary :
      is_sync a ≡ false
      → (needs_loaded_units a && contains d.pending daemon_reload) ≡ false
      → d' ≡ record d { ordered = d.ordered ++ a ∷ [] }
      → Placed d a d'

pub place-Placed : (d : Draft) (a : Action) → Placed d a (place d a)
unfolding place
place-Placed d a = elim (Bool-cases (is_sync a)) [
  | inl sync ↦ elim (Bool-cases (contains d.pending a)) [
    | inl held ↦ merged sync held (rw (sync, held))
    | inr fresh ↦ deferred sync fresh (rw (sync, fresh))
  ]
  | inr plain ↦ elim (Bool-cases (needs_loaded_units a && contains d.pending daemon_reload)) [
    | inl both ↦ reloaded plain (ground arith) (ground arith) (rw (plain, both))
    | inr neither ↦ ordinary plain neither (rw (plain, neither))
  ]
]

-- What is ordered stays ordered: later actions go behind it.
place-extends :
    (d d' : Draft) (a : Action)
    → Placed d a d'
    → (xs : List Action) × (d'.ordered ≡ d.ordered ++ xs)
place-extends d d' a (merged _ _ e) = ([], rw (e, append-nil))
place-extends d d' a (deferred _ _ e) = ([], rw (e, append-nil))
place-extends d d' a (reloaded _ _ _ e) =
    (daemon_reload ∷ a ∷ [], ap (λ x. x.ordered) e ∙ append_assoc d.ordered _ _)
place-extends d d' a (ordinary _ _ e) = (a ∷ [], ap (λ x. x.ordered) e)

pub place_entry-extends :
    (d : Draft) (undo : List Action)
    → (xs : List Action) × ((place_entry d undo).ordered ≡ d.ordered ++ xs)
unfolding place_entry
place_entry-extends d [] = ([], sym (append-nil d.ordered))
place_entry-extends d (a ∷ undo) =
    let (xs, p) = place-extends d (place d a) a (place-Placed d a) in
    let (ys, q) = place_entry-extends (place d a) undo in
    (xs ++ ys, q ∙ ap (λ l. l ++ ys) p ∙ append_assoc d.ordered xs ys)
