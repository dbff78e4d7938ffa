-- ===== src/Events/Tree/Claims.antt =====
-- A child of an open node: what a claim, a start and an unplanned key do on both sides.
use mix.Base.{
  ℕ, ◌+◌, List, [], ◌∷◌, ◌++◌, Option, none, some, false, if◌then◌else◌, ◌≡◌, refl, ap, arith, ◌==◌,
  nat_eq, text_eq, contains, contains-count, count, length, Text,
}
use mix.Events.Message.{root, NodeStarted}
use mix.Events.Validate.Nodes.{NodeMap, lookup, adjust, mapped}
use mix.Events.Validate.State.{Record, Validator, insert_id, ok, running, child_path, ◌>>◌}
use mix.Events.Validate.Check.{checked_kind, opened_record, started, no_nodes}
use mix.Events.Tree.State.{Open, Tree, Start, get, put, change, claimed, opened}
use mix.Events.Tree.Coupling.{get-put, get-change}

pub no_nodes-lookup :
    (i : ℕ) (nodes : NodeMap Record) (r : Record) → lookup i nodes ≡ some r → no_nodes nodes ≡ false
no_nodes-lookup i [] r e = cc
no_nodes-lookup i (n ∷ nodes) r e = refl

-- The parent's record once a child has claimed `key` and runs as `id`.
abbrev pub with_child : ℕ → Text → Record → Record
with_child id key r = record r { keys = key ∷ r.keys; open_children = insert_id id r.open_children }

module _ {P : Type 0} where
  abbrev pub message : ℕ → ℕ → Start P → NodeStarted P
  message id parent s = record {
    id = id;
    parent = parent;
    key = s.key;
    planned = s.planned;
    shielded = s.shielded;
    kind = some s.kind;
  }

  -- The reader's state once it has taken the start of node `id`.
  abbrev pub after_start : Validator → ℕ → ℕ → Record → Start P → Validator
  after_start v id parent p s = record v {
    entries =
        v.entries
        ++ record { id = some id; path = child_path v.entries p s.key; outcome = running } ∷ [];
    nodes =
        (id, opened_record (message id parent s) (length v.entries))
        ∷ adjust parent (with_child id s.key) v.nodes;
  }

  pub started-child :
      (v : Validator) (id parent : ℕ) (p : Record) (s : Start P)
      → (id == 0) ≡ false
      → (id == root) ≡ false
      → lookup id v.nodes ≡ none
      → lookup parent v.nodes ≡ some p
      → p.finished ≡ false
      → contains p.keys s.key ≡ false
      → checked_kind (adjust parent (with_child id s.key) v.nodes) (message id parent s) ≡ ok tt
      → started v (message id parent s) ≡ ok (after_start v id parent p s)
  unfolding started
  started-child v id parent p s z n absent present running' free kind =
      rw (z, absent, n, present, running', free)
        (ap (λ c. c >> ok (after_start v id parent p s)) kind)

  abbrev pub with_open_child : Text → Open P → Open P
  with_open_child key o = record o { used = key ∷ o.used; children = o.children + 1 }

  abbrev pub table_after_start : Tree P → ℕ → Start P → List (Option (Open P))
  table_after_start t parent s =
      put
        (change (claimed t.open_nodes parent s.key) parent
          (λ o. record o { children = o.children + 1 }))
        t.next (some (opened parent s))

  pub get-after_start :
      (t : Tree P) (parent : ℕ) (s : Start P) (i : ℕ)
      → get (table_after_start t parent s) i ≡ (
          if t.next == i
          then some (opened parent s)
          else if parent == i
          then mapped (with_open_child s.key) (get t.open_nodes i)
          else get t.open_nodes i)
  get-after_start t parent s i =
      let claims = claimed t.open_nodes parent s.key in
      rw
        (
          get-put (change claims parent (λ o. record o { children = o.children + 1 })) t.next i
              (some (opened parent s)),
          get-change claims parent i (λ o. record o { children = o.children + 1 }),
          get-change t.open_nodes parent i (λ o. record o { used = s.key ∷ o.used }),
        )
        (ground arith)

pub length-insert_id :
    (id : ℕ) (ids : List ℕ) → count id ids ≡ 0 → length (insert_id id ids) ≡ length ids + 1
length-insert_id id ids h = ground (arith, contains-count ids id)

pub count-insert_id :
    (id i : ℕ) (ids : List ℕ)
    → count id ids ≡ 0
    → count i (insert_id id ids) ≡ (if id == i then count i ids + 1 else count i ids)
count-insert_id id i ids h = ground (arith, contains-count ids id)
