-- ===== src/Run/Runner/Keys.antt =====
-- The keys of the nodes that the runner of crates/core/src/run/mod.rs starts, and which of them are
-- still free under its plan.
use mix.Base.{
  ℕ, zero, suc, ◌+◌, ◌≤◌, ◌<◌, List, [], ◌∷◌, ◌++◌, some, Bool, true, false, not, ◌&&◌, ◌||◌, ◌≡◌,
  refl, sym, ap, ◌∙◌, arith, inl, inr, ◌==◌, nat_eq, text_eq, contains, map, all, get_elem?, Text,
  text, Bool-cases, some_inj, ==_refl, leb,
}
use mix.Declared.Paths.{decimal}
use mix.Declared.Decimal.{decimal_inj}
use mix.Events.Tree.Coupling.{Distinct}
use mix.Run.Runner.{StepSpec}
use mix.Run.Runner.Rounds.{reclaim_key, action_key, rollback_key}

abbrev starts_with : Text → Text → Bool
starts_with [] key = true
starts_with (c ∷ prefix) [] = false
starts_with (c ∷ prefix) (d ∷ key) = c == d && starts_with prefix key

-- The keys that the runner gives to nodes which are no steps.
unfoldable pub reserved : Text → Bool
reserved key =
    starts_with (text "action-") key || starts_with (text "rollback:") key || key == reclaim_key

-- The steps' keys differ, and none is the runner's own.
pub record Keyed (steps : List StepSpec) : Type 0 where
  pub differ : Distinct (map (λ s. s.key) steps)
  pub apart : all (λ s. not (reserved s.key)) steps ≡ true

pub record PlanFresh (steps : List StepSpec) (used : List Text) (performed from : ℕ)
    (undoable : ℕ → Bool) : Type 0 where
  pub steps_free :
      (j : ℕ) (s : StepSpec) → from ≤ j → get_elem? steps j ≡ some s → contains used s.key ≡ false
  pub rollbacks_free :
      (j : ℕ) (s : StepSpec)
      → undoable j ≡ true
      → get_elem? steps j ≡ some s
      → contains used (rollback_key s.key) ≡ false
  pub reclaim_free : contains used reclaim_key ≡ false
  pub actions_free : (m : ℕ) → performed < m → contains used (action_key m) ≡ false

starts_with-append : (prefix key : Text) → starts_with prefix (prefix ++ key) ≡ true
starts_with-append [] key = refl
starts_with-append (c ∷ prefix) key = ground (arith, starts_with-append prefix key, ==_refl c)

-- Equal texts are reserved together.
unreserved : (key own : Text) → reserved key ≡ false → reserved own ≡ true → (key == own) ≡ false
unreserved key own free taken = elim (Bool-cases (key == own)) [
  | inr other ↦ other
  | inl same ↦ let e = (text_eq.same_iff key own).0 same in absurd (cc (ap reserved e, free, taken))
]

reserved-action : (m : ℕ) → reserved (action_key m) ≡ true
unfolding reserved action_key
reserved-action m = refl

reserved-rollback : (key : Text) → reserved (rollback_key key) ≡ true
unfolding reserved
reserved-rollback key = refl

reserved-reclaim : reserved reclaim_key ≡ true
unfolding reserved
reserved-reclaim = refl

all-get :
    (p : StepSpec → Bool) (steps : List StepSpec) (j : ℕ) (s : StepSpec)
    → all p steps ≡ true
    → get_elem? steps j ≡ some s
    → p s ≡ true
all-get p [] j s h e = absurd (cc)
all-get p (x ∷ steps) zero s h e = ground (arith, h, e)
all-get p (x ∷ steps) (suc j) s h e = all-get p steps j s (ground (arith, h)) e

pub unreserved_step :
    (steps : List StepSpec) (k : Keyed steps) (j : ℕ) (s : StepSpec)
    → get_elem? steps j ≡ some s
    → reserved s.key ≡ false
unreserved_step steps k j s e =
    let h = all-get (λ s. not (reserved s.key)) steps j s k.apart e in ground (arith, h)

contains-key :
    (steps : List StepSpec) (j : ℕ) (s : StepSpec)
    → get_elem? steps j ≡ some s
    → contains (map (λ s. s.key) steps) s.key ≡ true
contains-key [] j s e = absurd (cc)
contains-key (x ∷ steps) zero s e = ground (arith, e, ==_refl s.key)
contains-key (x ∷ steps) (suc j) s e = ground (arith, contains-key steps j s e)

differing :
    (steps : List StepSpec) (i j : ℕ) (s s' : StepSpec)
    → Distinct (map (λ s. s.key) steps)
    → get_elem? steps i ≡ some s
    → get_elem? steps j ≡ some s'
    → i < j
    → (s.key == s'.key) ≡ false
differing [] i j s s' d e e' h = absurd (cc)
differing (x ∷ steps) i zero s s' d e e' h = absurd (omega (arith, h))
differing (x ∷ steps) zero (suc j) s s' (d, _) e e' h = elim (Bool-cases (s.key == s'.key)) [
  | inr other ↦ other
  | inl same ↦
      let k : x.key ≡ s'.key =
        ap (λ s. s.key) (some_inj e) ∙ (text_eq.same_iff s.key s'.key).0 same in
      let found = contains-key steps j s' e' in
      absurd (cc (ap (contains (map (λ s. s.key) steps)) k, d, found))
]
differing (x ∷ steps) (suc i) (suc j) s s' (_, d) e e' h =
    differing steps i j s s' d e e' (omega (arith, h))

==_sym : (a b : Text) → (a == b) ≡ false → (b == a) ≡ false
==_sym a b h = elim (Bool-cases (b == a)) [
  | inr other ↦ other
  | inl same ↦
      let e = (text_eq.same_iff a b).1 (sym ((text_eq.same_iff b a).0 same)) in absurd (cc (e, h))
]

keys_apart :
    (steps : List StepSpec) (i j : ℕ) (s s' : StepSpec)
    → Keyed steps
    → get_elem? steps i ≡ some s
    → get_elem? steps j ≡ some s'
    → (i == j) ≡ false
    → (s.key == s'.key) ≡ false
keys_apart steps i j s s' k e e' h = elim (Bool-cases (leb i j)) [
  | inl low ↦ differing steps i j s s' k.differ e e' (ground (arith, low, h))
  | inr high ↦ ==_sym s'.key s.key (differing steps j i s' s k.differ e' e (ground (arith, high)))
]

abbrev pub ActionsFree : List Text → ℕ → Type 0
ActionsFree used performed = (m : ℕ) → performed < m → contains used (action_key m) ≡ false

pub add_action :
    (used : List Text) (performed : ℕ)
    → ActionsFree used performed
    → ActionsFree (action_key (performed + 1) ∷ used) (performed + 1)
unfolding action_key
add_action used performed free m h = elim (Bool-cases (decimal (performed + 1) == decimal m)) [
  | inr other ↦ let rest = free m (omega (arith, h)) in ground (arith, other, rest)
  | inl same ↦
      let e =
        decimal_inj (performed + 1) m
          ((text_eq.same_iff (decimal (performed + 1)) (decimal m)).0 same) in
      absurd (omega (arith, h, e))
]

module _ {steps : List StepSpec} (k : Keyed steps) {used : List Text} {performed from : ℕ}
    {undoable : ℕ → Bool} (fresh : PlanFresh steps used performed from undoable) where
  pub add_step :
      (s : StepSpec)
      → get_elem? steps from ≡ some s
      → PlanFresh steps (s.key ∷ used) performed (from + 1) undoable
  add_step s e =
      let own = unreserved_step steps k from s e in
      record {
        steps_free = λ j s' h e'.
            let a = keys_apart steps from j s s' k e e' (ground (arith, h)) in
            let b = fresh.steps_free j s' (omega (arith, h)) e' in ground (arith, a, b);
        rollbacks_free = λ j s' h e'.
            let a = unreserved s.key (rollback_key s'.key) own (reserved-rollback s'.key) in
            let b = fresh.rollbacks_free j s' h e' in ground (arith, a, b);
        reclaim_free =
            let a = unreserved s.key reclaim_key own reserved-reclaim in
            ground (arith, a, fresh.reclaim_free);
        actions_free = λ m h.
            let a = unreserved s.key (action_key m) own (reserved-action m) in
            let b = fresh.actions_free m h in ground (arith, a, b);
      }

  pub add_rollback :
      (step : ℕ) (s : StepSpec) (undoable' : ℕ → Bool)
      → get_elem? steps step ≡ some s
      → ((j : ℕ) → undoable' j ≡ true → (undoable j ≡ true) × ((step == j) ≡ false))
      → PlanFresh steps (rollback_key s.key ∷ used) performed from undoable'
  unfolding action_key
  add_rollback step s undoable' e left = record {
    steps_free = λ j s' h e'.
        let own = unreserved_step steps k j s' e' in
        let a =
          ==_sym s'.key (rollback_key s.key)
            (unreserved s'.key (rollback_key s.key) own (reserved-rollback s.key)) in
        let b = fresh.steps_free j s' h e' in ground (arith, a, b);
    rollbacks_free = λ j s' h e'.
        let (h', other) = left j h in
        let a = keys_apart steps step j s s' k e e' other in
        let b = fresh.rollbacks_free j s' h' e' in ground (arith, a, b);
    reclaim_free = ground (arith, fresh.reclaim_free);
    actions_free = λ m h. let b = fresh.actions_free m h in ground (arith, b);
  }

  pub weakened :
      (performed' from' : ℕ) (undoable' : ℕ → Bool)
      → performed ≤ performed'
      → from ≤ from'
      → ((j : ℕ) → undoable' j ≡ true → undoable j ≡ true)
      → PlanFresh steps used performed' from' undoable'
  weakened performed' from' undoable' p f left = record {
    steps_free = λ j s h e. fresh.steps_free j s (omega (arith, f, h)) e;
    rollbacks_free = λ j s h e. fresh.rollbacks_free j s (left j h) e;
    reclaim_free = fresh.reclaim_free;
    actions_free = λ m h. fresh.actions_free m (omega (arith, p, h));
  }
