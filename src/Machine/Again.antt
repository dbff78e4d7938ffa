-- ===== src/Machine/Again.antt =====
-- An action on groups and users that succeeded is done.
use mathlib.Core.Path.{subst}
use mix.Base.{
  List, [], true, false, nat_eq, text_eq, ==_refl, contains, contains-count, ◌≡◌, refl, arith, ◌∙◌,
  ap,
}
use mix.Effect.Action.{Action}
use mix.Effect.Observe.{GroupFacts}
use mix.Effect.Failure.{Outcome, Performed}
use mix.Effect.Accounts.{
  Accounted, account_precondition, done_already, members_of, has_gid, has_ids,
}
use mix.Machine.Map.Laws.{lookup-remove}
use mix.Machine.World.{
  World, accounts_of, perform, performed, apply, with_member, without_member, facts_of,
}
use mix.Machine.Members.{count-with_member, count-without_member}
use mix.Machine.Valid.{IsValid, on_accounts}
use mix.Machine.Changes.{lookup-change_self, lookup-insert_self}
use mix.Machine.Permits.{set_group_gid-goes, set_user_ids-goes, add_member-goes, remove_member-goes}

perform-done :
    (action : Action) (w : World) (undo : List Action)
    → IsValid w
    → on_accounts action ≡ true
    → account_precondition (accounts_of w) action ≡ Accounted.go undo
    → done_already (accounts_of (perform action w)) action ≡ true
unfolding perform done_already
perform-done (Action.add_group name gid) w undo v on h =
    let new : GroupFacts = record { gid = gid; members = [] } in
    ap (has_gid gid) (lookup-insert_self name new w.groups) ∙ ==_refl gid
perform-done (Action.set_group_gid name gid expect) w undo v on h =
    let (g, found, _, _, _, _) = set_group_gid-goes w v name gid expect undo h in
    ap (has_gid gid)
      (lookup-change_self name (λ group. record group { gid = gid }) w.groups g found)
    ∙ ==_refl gid
perform-done (Action.delete_group name gid) w undo v on h =
    rw (lookup-remove name name w.groups v.groups_sorted, ==_refl name) refl
perform-done (Action.add_user spec) w undo v on h =
    ap (has_ids (spec.uid, spec.gid)) (lookup-insert_self spec.name (facts_of spec) w.users)
    ∙ ground arith
perform-done (Action.set_user_ids name (uid, gid) expect) w undo v on h =
    let (u, found, _, _, _, _, _) = set_user_ids-goes w v name (uid, gid) expect undo h in
    ap (has_ids (uid, gid))
      (lookup-change_self name (λ user. record user { uid = uid; gid = gid }) w.users u found)
    ∙ ground arith
perform-done (Action.delete_user name ids comment) w undo v on h =
    rw (lookup-remove name name w.users v.users_sorted, ==_refl name) refl
perform-done (Action.add_member name who) w undo v on h =
    let (g, found, _, _, _) = add_member-goes w v name who undo h in
    ap (λ o. contains (members_of o) who)
      (lookup-change_self name (with_member who) w.groups g found)
    ∙ contains-count (with_member who g).members who
    ∙ ground (arith, count-with_member who who g, ==_refl who)
perform-done (Action.remove_member name who) w undo v on h =
    let (g, found, _, _) = remove_member-goes w v name who undo h in
    let away : contains (without_member who g).members who ≡ false =
      contains-count (without_member who g).members who
      ∙ ground (arith, count-without_member who who g, ==_refl who) in
    rw (lookup-change_self name (without_member who) w.groups g found, away) refl
perform-done _ w undo v on h = absurd (cc)

abbrev Undoless : Action → World → Type 0
Undoless action w = apply action w ≡ (Outcome.ok (record { undo = [] }), w)

apply-done :
    (action : Action) (w : World) → done_already (accounts_of w) action ≡ true → Undoless action w
unfolding apply account_precondition
apply-done action w h = rw h refl

performed-again :
    (action : Action) (w w' : World) (a : Accounted) (p : Performed)
    → IsValid w
    → on_accounts action ≡ true
    → account_precondition (accounts_of w) action ≡ a
    → performed action w a ≡ (Outcome.ok p, w')
    → Undoless action w'
unfolding apply
performed-again action w w' (Accounted.done) p v on e h =
    subst (Undoless action) (ap (λ r. r.1) h) (ap (performed action w) e)
performed-again action w w' (Accounted.refused f) p v on e h = absurd (cc)
performed-again action w w' (Accounted.go undo) p v on e h =
    subst (Undoless action) (ap (λ r. r.1) h)
      (apply-done action (perform action w) (perform-done action w undo v on e))

-- An action on groups and users that succeeded on a valid machine succeeds again, changes nothing
-- then and leaves nothing to undo.
pub apply-again :
    (action : Action) (w w' : World) (p : Performed)
    → IsValid w
    → on_accounts action ≡ true
    → apply action w ≡ (Outcome.ok p, w')
    → apply action w' ≡ (Outcome.ok (record { undo = [] }), w')
unfolding apply
apply-again action w w' p v on h =
    performed-again action w w' (account_precondition (accounts_of w) action) p v on refl h
