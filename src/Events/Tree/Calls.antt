-- ===== src/Events/Tree/Calls.antt =====
-- What a client calls on a tree, which calls it may make, and how a claim ends.
use mix.Base.{
  ℕ, some, Bool, true, false, ◌≡◌, arith, inl, inr, Eq, text_eq, contains, Option-cases, Bool-cases,
  Text,
}
use mix.Events.Message.{NotRunReason, Kind, Progress, Diagnostic}
use mix.Events.Validate.Nodes.{NodeMap, lookup}
use mix.Events.Validate.State.{Record, Validator, is_reasonless, is_blocked, is_empty}
use mix.Events.Validate.Check.{valid_target}
use mix.Events.Tree.State.{
  Tree, Open, Start, Ending, Used, ok, err, not_open, duplicate_key, get, claim, claimed,
}
use mix.Events.Tree.State
use mix.Events.Tree.Coupling.{Distinct}
use mix.Events.Tree.Finishing.{Suits}

pub data Call (P : Type 0) : Type 0 where
  start : ℕ → Start P → Call P
  not_run : ℕ → Text → NotRunReason → Call P
  blocked : ℕ → Text → Text → Call P
  progress : ℕ → Progress P → Call P
  warn : ℕ → Diagnostic P → Call P
  finish : ℕ → Ending P → Call P

unfoldable pub apply : {P : Type 0} ⦃eq : Eq P⦄ → Tree P → Call P → Used (Tree P)
apply t (start parent s) = State.start t parent s
apply t (not_run parent key reason) = State.not_run t parent key reason
apply t (blocked parent key by) = State.blocked t parent key by
apply t (progress id p) = State.progress t id p
apply t (warn id d) = State.warn t id d
apply t (finish id e) = State.finish t id e

abbrev pub proper_kind : {P : Type 0} → NodeMap Record → ℕ → Kind P → Bool
proper_kind nodes parent (Kind.rollback undoes) = valid_target nodes undoes parent
proper_kind nodes parent _ = true

-- What the tree does not check itself: planned keys that differ, a rollback of a finished step
-- beside it, a reason that is one, a blocker that is named, and an ending that suits the node.
abbrev pub Proper : {P : Type 0} → Validator → Call P → Type 0
Proper v (start parent s) = Distinct s.planned × (proper_kind v.nodes parent s.kind ≡ true)
Proper v (not_run parent key reason) = (is_reasonless reason ≡ false) × (is_blocked reason ≡ false)
Proper v (blocked parent key by) = is_empty by ≡ false
Proper v (progress id p) = Unit
Proper v (warn id d) = Unit
Proper v (finish id e) = (r : Record) → lookup id v.nodes ≡ some r → Suits id r.shape e

module _ {P : Type 0} where
  pub Used-ok : {t : Tree P} {t' : Tree P} → Used.ok t ≡ Used.ok t' → t ≡ t'
  Used-ok {t} {t'} e = cc

  abbrev pub claimed_tree : Tree P → ℕ → Text → Tree P
  claimed_tree t parent key = record t { open_nodes = claimed t.open_nodes parent key }

  pub data Claim (t : Tree P) (parent : ℕ) (key : Text) : Used (Tree P) → Type 0 where
    granted :
        (o : Open P)
        → get t.open_nodes parent ≡ some o
        → contains o.used key ≡ false
        → Claim t parent key (ok (claimed_tree t parent key))
    refused : (e : State.Misuse) → Claim t parent key (err e)

  pub claim-Claim : (t : Tree P) (parent : ℕ) (key : Text) → Claim t parent key (claim t parent key)
  unfolding claim
  claim-Claim t parent key = elim (Option-cases (get t.open_nodes parent)) [
    | inl missing ↦ rw (missing, claim) (refused (not_open parent))
    | inr (o, at) ↦ elim (Bool-cases (contains o.used key)) [
      | inl taken ↦ rw (at, taken, claim) (refused (duplicate_key parent key))
      | inr free ↦
          let e : claim t parent key ≡ ok (claimed_tree t parent key) = ground (arith, at, free) in
          rw e (granted o at free)
    ]
  ]
