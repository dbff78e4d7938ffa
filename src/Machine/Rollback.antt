-- ===== src/Machine/Rollback.antt =====
-- A session of actions on groups and users, cut off or not, and its rollback.
use mathlib.Core.List.{reverse-append}
use mix.Base.{
  List, [], ◌∷◌, ◌++◌, append_assoc, append-nil, flat_map, Option, some, some_inj, true, nat_eq,
  text_eq, all, ◌≡◌, refl, arith, sym, ◌∙◌, ap,
}
use mix.Effect.Action.{Action, is_sync, needs_loaded_units, action_eq}
use mix.Effect.Failure.{Outcome}
use mix.Effect.Accounts.{Accounted, account_precondition}
use mix.Run.Rollback.{Draft, start, finish, place, place_entry, rollback_order}
use mix.Run.Rollback.Flat.{unwound, rollback_order-flat}
use mix.Machine.World.{World, accounts_of, perform, performed, apply}
use mix.Machine.Valid.{IsValid, on_accounts, applied, onward}
use mix.Machine.Permitted.{Distinct, permitted-Reverts, permitted-IsValid, permitted-on_accounts}

-- The journal of a session, latest entry last, and the machine behind it. It stops at a failure.
abbrev pub recorded :
    Outcome × World
    → List (List Action)
    → (World → List (List Action) → List (List Action) × World)
    → List (List Action) × World
recorded (Outcome.ok p, w) journal rest = rest w (journal ++ p.undo ∷ [])
recorded (Outcome.err _, w) journal rest = (journal, w)

abbrev pub session : List Action → World → List (List Action) → List (List Action) × World
session [] w journal = (journal, w)
session (action ∷ rest) w journal = recorded (apply action w) journal (session rest)

-- The undo lists of a journal take a machine back to another.
record Leads (journal : List (List Action)) (from to : World) : Type 0 where
  valid : IsValid from
  accounts : all on_accounts (unwound journal) ≡ true
  returns : applied (unwound journal) from ≡ some to

onward-imp :
    (o : Outcome × World) (k k' : World → Option World) (v w : World)
    → ((u : World) → k u ≡ some v → k' u ≡ some w)
    → onward o k ≡ some v
    → onward o k' ≡ some w
onward-imp (Outcome.ok p, u) k k' v w f h = f u h
onward-imp (Outcome.err e, u) k k' v w f h = absurd (cc)

applied-append :
    (xs ys : List Action) (u v w : World)
    → applied xs u ≡ some v
    → applied ys v ≡ some w
    → applied (xs ++ ys) u ≡ some w
applied-append [] ys u v w h k = ap (applied ys) (some_inj h) ∙ k
applied-append (x ∷ xs) ys u v w h k =
    onward-imp (apply x u) (applied xs) (applied (xs ++ ys)) v w
      (λ t e. applied-append xs ys t v w e k) h

all-append :
    (xs ys : List Action)
    → all on_accounts xs ≡ true
    → all on_accounts ys ≡ true
    → all on_accounts (xs ++ ys) ≡ true
all-append [] ys h k = k
all-append (x ∷ xs) ys h k = ground (arith, h, all-append xs ys)

unwound-append :
    (journal : List (List Action)) (undo : List Action)
    → unwound (journal ++ undo ∷ []) ≡ undo ++ unwound journal
unwound-append journal undo = ap (flat_map (λ u. u)) (reverse-append journal (undo ∷ []))

Leads-append :
    (journal : List (List Action)) (undo : List Action) (v w w0 : World)
    → IsValid v
    → Leads journal w w0
    → all on_accounts undo ≡ true
    → applied undo v ≡ some w
    → Leads (journal ++ undo ∷ []) v w0
Leads-append journal undo v w w0 valid l on back = record {
  valid = valid;
  accounts =
      ap (all on_accounts) (unwound-append journal undo)
      ∙ all-append undo (unwound journal) on l.accounts;
  returns =
      ap (λ as'. applied as' v) (unwound-append journal undo)
      ∙ applied-append undo (unwound journal) v w w0 back l.returns;
}

recorded-Leads :
    (action : Action) (w w0 : World) (journal : List (List Action)) (a : Accounted)
    → on_accounts action ≡ true
    → Distinct action
    → Leads journal w w0
    → account_precondition (accounts_of w) action ≡ a
    → (rest : World → List (List Action) → List (List Action) × World)
    → ((v : World) (more : List (List Action))
        → Leads more v w0
        → Leads (rest v more).0 (rest v more).1 w0)
    → Leads
        (recorded (performed action w a) journal rest).0
        (recorded (performed action w a) journal rest).1
        w0
recorded-Leads action w w0 journal (Accounted.done) on d l e rest next =
    next w (journal ++ [] ∷ []) (Leads-append journal [] w w w0 l.valid l refl refl)
recorded-Leads action w w0 journal (Accounted.refused f) on d l e rest next = l
recorded-Leads action w w0 journal (Accounted.go undo) on d l e rest next =
    next (perform action w) (journal ++ undo ∷ []) (
      Leads-append journal undo (perform action w) w w0
        (permitted-IsValid action w undo l.valid on d e) l
        (permitted-on_accounts action w undo l.valid on e)
        (permitted-Reverts action w l.valid on undo e))

abbrev pub AllDistinct : List Action → Type 0
AllDistinct [] = Unit
AllDistinct (action ∷ rest) = Distinct action × AllDistinct rest

session-Leads :
    (actions : List Action) (w w0 : World) (journal : List (List Action))
    → all on_accounts actions ≡ true
    → AllDistinct actions
    → Leads journal w w0
    → Leads (session actions w journal).0 (session actions w journal).1 w0
unfolding apply
session-Leads [] w w0 journal on d l = l
session-Leads (action ∷ rest) w w0 journal on d l =
    recorded-Leads action w w0 journal (account_precondition (accounts_of w) action)
      (ground (arith, on)) d.0 l refl (session rest)
      (λ v more l'. session-Leads rest v w0 more (ground (arith, on)) d.1 l')

place-accounts :
    (d : Draft) (action : Action)
    → d.pending ≡ []
    → on_accounts action ≡ true
    → place d action ≡ record d { ordered = d.ordered ++ action ∷ [] }
unfolding place is_sync needs_loaded_units
place-accounts d (Action.add_group _ _) p on = refl
place-accounts d (Action.set_group_gid _ _ _) p on = refl
place-accounts d (Action.delete_group _ _) p on = refl
place-accounts d (Action.add_user _) p on = refl
place-accounts d (Action.set_user_ids _ _ _) p on = refl
place-accounts d (Action.delete_user _ _ _) p on = refl
place-accounts d (Action.add_member _ _) p on = refl
place-accounts d (Action.remove_member _ _) p on = refl
place-accounts d _ p on = absurd (cc)

-- An action on groups and users waits for nothing in a rollback.
place_entry-accounts :
    (d : Draft) (actions : List Action)
    → d.pending ≡ []
    → all on_accounts actions ≡ true
    → place_entry d actions ≡ record d { ordered = d.ordered ++ actions }
unfolding place_entry
place_entry-accounts d [] p on = ap (λ x. record d { ordered = x }) (sym (append-nil d.ordered))
place_entry-accounts d (action ∷ rest) p on =
    let placed = place-accounts d action p (ground (arith, on)) in
    ap (λ x. place_entry x rest) placed
    ∙ place_entry-accounts (record d { ordered = d.ordered ++ action ∷ [] }) rest p
        (ground (arith, on))
    ∙ ap (λ x. record d { ordered = x }) (append_assoc d.ordered (action ∷ []) rest)

rollback_order-accounts :
    (journal : List (List Action))
    → all on_accounts (unwound journal) ≡ true
    → rollback_order journal ≡ unwound journal
rollback_order-accounts journal on =
    rollback_order-flat journal
    ∙ ap finish (place_entry-accounts start (unwound journal) refl on)
    ∙ append-nil (unwound journal)

-- Whatever actions on groups and users a valid machine is asked for, none of which adds a user to a
-- group twice, up to the first that fails: what they leave to undo, in rollback order, succeeds and
-- gives back the groups and users as they were.
pub rollback-session :
    (actions : List Action) (w : World)
    → IsValid w
    → all on_accounts actions ≡ true
    → AllDistinct actions
    → applied (rollback_order (session actions w []).0) (session actions w []).1 ≡ some w
rollback-session actions w valid on d =
    let l =
      session-Leads actions w w [] on d
        (record { valid = valid; accounts = refl; returns = refl }) in
    ap (λ as'. applied as' (session actions w []).1)
      (rollback_order-accounts (session actions w []).0 l.accounts)
    ∙ l.returns

-- A session of actions on groups and users, none of which adds a user to a group twice, keeps a valid
-- machine valid.
pub session-IsValid :
    (actions : List Action) (w : World)
    → IsValid w
    → all on_accounts actions ≡ true
    → AllDistinct actions
    → IsValid (session actions w []).1
session-IsValid actions w valid on d =
    let l =
      session-Leads actions w w [] on d
        (record { valid = valid; accounts = refl; returns = refl }) in
    l.valid
