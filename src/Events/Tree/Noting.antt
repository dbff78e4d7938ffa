-- ===== src/Events/Tree/Noting.antt =====
-- The planned keys that no child claimed: `finish` reports each as not run, and a reader takes them.
use mathlib.Core.Bool
use mix.Base.{
  ℕ, List, [], ◌∷◌, ◌++◌, none, some, false, if◌then◌else◌, ◌≡◌, refl, ◌∙◌, arith, ◌==◌, ==_refl,
  nat_eq, text_eq, contains, map, Text,
}
use mix.Events.Message.{NotRunReason, known}
use mix.Events.Validate.Nodes.{lookup, adjust, mapped, lookup-adjust}
use mix.Events.Validate.State.{Record, Validator, ok, child_path, not_run}
use mix.Events.Validate.Check.{child_not_run, push_event}
use mix.Events.Validate.Stream.{Accepts, stop, next, advanced, push-event}
use mix.Events.Tree.State.{not_run_event}
use mix.Events.Tree.Claims.{no_nodes-lookup}

abbrev pub with_keys : List Text → List Text → List Text
with_keys [] keys = keys
with_keys (k ∷ ks) keys = with_keys ks (k ∷ keys)

abbrev pub noted : List Text → Record → Record
noted ks r = record r { keys = with_keys ks r.keys }

-- None of the keys is taken, and none comes twice.
abbrev pub Free : List Text → List Text → Type 0
Free [] keys = Unit
Free (k ∷ ks) keys = (contains keys k ≡ false) × Free ks (k ∷ keys)

child_not_run-ok :
    (v : Validator) (r : Record) (id : ℕ) (key : Text)
    → lookup id v.nodes ≡ some r
    → r.finished ≡ false
    → contains r.keys key ≡ false
    → child_not_run v (record {
      parent = id;
      key = key;
      reason = known NotRunReason.not_reached;
      blocked_by = [];
    })
      ≡ ok (record v {
        nodes = adjust id (λ q. record q { keys = key ∷ q.keys }) v.nodes;
        entries =
            v.entries
            ++ record {
              id = none;
              path = child_path v.entries r key;
              outcome = not_run NotRunReason.not_reached;
            }
              ∷ [];
      })
unfolding child_not_run mathlib.Core.Bool.xor
child_not_run-ok v r id key e h k = rw (e, h, k)

-- What the reader's state is after the keys, as far as it matters.
pub record Noted (request : Text) (id : ℕ) (ks : List Text) (v w : Validator) : Type 0 where
  pub asked : w.request ≡ some request
  pub open' : w.root_finished ≡ v.root_finished
  pub nodes :
      (i : ℕ)
      → lookup i w.nodes
        ≡ (if id == i then mapped (noted ks) (lookup i v.nodes) else lookup i v.nodes)

module _ {P : Type 0} (request : Text) (id : ℕ) where
  pub Accepts-Noted :
      (v : Validator) (r : Record) (ks : List Text)
      → v.request ≡ some request
      → v.root_finished ≡ false
      → lookup id v.nodes ≡ some r
      → r.finished ≡ false
      → Free ks r.keys
      → (w : Validator) × Accepts {P = P} request v
          (map (not_run_event id NotRunReason.not_reached []) ks)
          w
        × Noted request id ks v w
  unfolding push_event
  Accepts-Noted v r [] asked running e h free =
      (v, stop v, record { asked = asked; open' = refl; nodes = λ i. ground arith })
  Accepts-Noted v r (k ∷ ks) asked running e h free =
      let v' : Validator = record (advanced v request) {
        nodes = adjust id (λ q. record q { keys = k ∷ q.keys }) v.nodes;
        entries =
            v.entries
            ++ record {
              id = none;
              path = child_path v.entries r k;
              outcome = not_run NotRunReason.not_reached;
            }
              ∷ [];
      } in
      let (w, rest, noted') =
        Accepts-Noted v' (record r { keys = k ∷ r.keys }) ks refl running
          (lookup-adjust id id (λ q. record q { keys = k ∷ q.keys }) v.nodes ∙ rw (==_refl id, e)) h
          free.1 in
      (
        w,
        next
            (push-event request v v' _ asked running (no_nodes-lookup id v.nodes r e)
              (child_not_run-ok (advanced v request) r id k e h free.0))
            refl rest,
        record {
          asked = noted'.asked;
          open' = noted'.open';
          nodes = λ i.
              noted'.nodes i
              ∙ rw (lookup-adjust id i (λ q. record q { keys = k ∷ q.keys }) v.nodes)
                  (ground arith);
        },
      )
