-- ===== src/Events/Tree/Session.antt =====
-- Whole sessions of a client with a tree, and the reader of the stream that it emits.
use mathlib.Core.Path.{subst}
use mix.Base.{
  ℕ, zero, suc, ◌<◌, List, [], ◌∷◌, none, some, Bool, true, false, not, ◌≡◌, ◌≢◌, refl, sym, ap,
  arith, inl, inr, Eq, ◌==◌, nat_eq, text_eq, Option-cases, Text, is_some,
}
use mix.Events.Message.{root, Kind}
use mix.Events.Validate.Nodes.{lookup}
use mix.Events.Validate.State.{Validator, Checked, new, running, Entry}
use mix.Events.Validate.Check.{push_all, validate, opened_record}
use mix.Events.Validate.Check as Check
use mix.Events.Validate.Stream.{Accepts, next, stop, numbered, Accepts-append, Accepts-push_all}
use mix.Events.Tree.State.{Tree, Open, Start, Used, ok, err, get, new_tree, opened, started_event}
use mix.Events.Tree.State
use mix.Events.Tree.Coupling.{Coupled, Matched, Distinct, root_open, still_open}
use mix.Events.Tree.Claims.{message}
use mix.Events.Tree.Calls.{Call, apply, Proper}
use mix.Events.Tree.Reporting.{apply-Reported}

module _ {P : Type 0} where
  -- `Start::command`, with the keys of `Start::planned` and the mark of `Start::shielded`.
  abbrev pub command_start : Text → P → List Text → Bool → Start P
  command_start key command planned shielded = record {
    key = key;
    kind = Kind.command command;
    planned = planned;
    shielded = shielded;
  }

  abbrev first_reader : Text → Start P → Validator
  first_reader request s = record {
    next_seq = 2;
    request = some request;
    nodes = (root, opened_record (message root 0 s) 0) ∷ [];
    entries = record { id = some root; path = s.key; outcome = running } ∷ [];
    root_finished = false;
  }

  Accepts-root :
      (request key : Text) (command : P) (planned : List Text) (shielded : Bool)
      → (let s = command_start key command planned shielded in
          Accepts request new (started_event root 0 s ∷ []) (first_reader request s))
  unfolding Check.push Check.push_event Check.started
  Accepts-root request key command planned shielded = next refl refl (stop _)

  Coupled-root :
      (request : Text) (s : Start P)
      → Distinct s.planned
      → Coupled request (new_tree s) (first_reader request s)
  unfolding new_tree State.open_node
  Coupled-root request s d = record {
    at = matched;
    fresh = λ i h. ground arith;
    unlisted = λ i j r h e. ground (arith, e);
    listed = λ i o e n. absurd (n (only i o e));
    distinct = λ i o e. subst (λ (x : Open P). Distinct x.planned) (root_node i o e) d;
    topmost = λ o e. ap (λ (x : Open P). x.parent) (sym (root_node root o e));
    zero_free = refl;
    begun = (_, refl);
    ended = refl;
    named = refl;
  }
    where
      matched :
          (i : ℕ)
          → Matched (get (new_tree s).open_nodes i) (lookup i (first_reader request s).nodes)
      matched zero = tt
      matched (suc zero) = (refl, refl, refl, refl, refl)
      matched (suc (suc i)) =
          let other : (root == suc (suc i)) ≡ false = ground arith in rw other tt

      only : (i : ℕ) (o : Open P) → get (new_tree s).open_nodes i ≡ some o → i ≡ root
      only zero o e = cc
      only (suc zero) o e = refl
      only (suc (suc i)) o e = cc

      root_node : (i : ℕ) (o : Open P) → get (new_tree s).open_nodes i ≡ some o → opened 0 s ≡ o
      root_node zero o e = cc
      root_node (suc zero) o e = cc
      root_node (suc (suc i)) o e = cc

-- A tree of a command, and the calls that a client makes on it. A call is proper for the reader
-- that has taken the events so far.
pub data Session {P : Type 0} ⦃eq : Eq P⦄ (request : Text) : Tree P → Type 0 where
  begun :
      (key : Text) (command : P) (planned : List Text) (shielded : Bool)
      → Distinct planned
      → Session request (new_tree (command_start key command planned shielded))
  called :
      {t : Tree P} {t' : Tree P}
      → Session request t
      → (call : Call P)
      → ((v : Validator)
          → push_all new (numbered request 1 t.outbox) ≡ Checked.ok v
          → Proper v call)
      → apply t call ≡ ok t'
      → Session request t'

abbrev pub is_valid : Checked (List Entry) → Bool
is_valid (Checked.ok _) = true
is_valid (Checked.err _) = false

abbrev pub goes_through : {P : Type 0} → Used (Tree P) → Bool
goes_through (ok _) = true
goes_through (err _) = false

module _ {P : Type 0} ⦃eq : Eq P⦄ (request : Text) where
  pub Session-Accepts :
      {t : Tree P}
      → Session request t
      → (v : Validator) × Accepts request new t.outbox v × Coupled request t v
  unfolding new_tree State.open_node
  Session-Accepts (begun key command planned shielded d) =
      let s = command_start key command planned shielded in
      (
        first_reader request s,
        Accepts-root request key command planned shielded,
        Coupled-root request s d,
      )
  Session-Accepts (called {t = t} {t' = t'} session call proper e) =
      let (v, accepted, c) = Session-Accepts session in
      let r = apply-Reported c t' call (proper v (Accepts-push_all request accepted)) e in
      (
        r.reader,
        subst (λ l. Accepts request new l r.reader) (sym r.emitted)
            (Accepts-append request accepted r.accepted),
        r.coupled,
      )

  no_open :
      {t : Tree P} {v : Validator}
      → Coupled request t v
      → get t.open_nodes root ≡ none
      → (i : ℕ) → get t.open_nodes i ≡ none
  no_open {t} c closed i = elim (Option-cases (get t.open_nodes i)) [
    | inl e ↦ e
    | inr (o, at) ↦ absurd (ground (arith, c.ended, root_open c i o at, closed))
  ]

  -- In a session of proper calls the reader never refuses an event: it takes all that the tree has
  -- emitted so far, numbered from one.
  pub push_all-Session :
      {t : Tree P}
      → Session request t
      → (v : Validator) × (push_all new (numbered request 1 t.outbox) ≡ Checked.ok v)
  push_all-Session session =
      let (v, accepted, _) = Session-Accepts session in (v, Accepts-push_all request accepted)

  -- The stream that a session of proper calls has emitted is valid exactly if the root is closed.
  pub validate-Session :
      {t : Tree P}
      → Session request t
      → is_valid (validate (numbered request 1 t.outbox)) ≡ not (is_some (get t.open_nodes root))
  unfolding validate Check.finish
  validate-Session session =
      let (v, accepted, c) = Session-Accepts session in
      rw (Accepts-push_all request accepted, c.ended) (ground arith)

  -- In a session of proper calls, every open node other than the root has a parent that is open and
  -- has a lower id.
  pub parent-Session :
      {t : Tree P} (i : ℕ) (o : Open P)
      → Session request t
      → get t.open_nodes i ≡ some o
      → i ≢ root
      → (p : Open P) × (get t.open_nodes o.parent ≡ some p) × (o.parent < i)
  parent-Session i o session at n =
      let (v, _, c) = Session-Accepts session in
      let (q, found, running', _, below) = c.listed i o at n in
      let (p, at') = still_open c o.parent q found running' in (p, at', below)

  refuses :
      (t : Tree P) (call : Call P)
      → ((i : ℕ) → get t.open_nodes i ≡ none)
      → goes_through (apply t call) ≡ false
  unfolding apply State.start State.not_run State.blocked State.progress State.warn State.finish
      State.claim
  refuses t (Call.start parent s) h = rw (h parent, goes_through) refl
  refuses t (Call.not_run parent key reason) h = rw (h parent, goes_through) refl
  refuses t (Call.blocked parent key by) h = rw (h parent, goes_through) refl
  refuses t (Call.progress id p) h = rw (h id, goes_through) refl
  refuses t (Call.warn id d) h = rw (h id, goes_through) refl
  refuses t (Call.finish id ending) h = rw (h id, goes_through) refl

  -- Behind the close of the root of a session of proper calls, the tree refuses every call.
  pub apply-closed :
      {t : Tree P} (call : Call P)
      → Session request t
      → get t.open_nodes root ≡ none
      → goes_through (apply t call) ≡ false
  apply-closed {t} call session e =
      let (_, _, c) = Session-Accepts session in refuses t call (no_open c e)
