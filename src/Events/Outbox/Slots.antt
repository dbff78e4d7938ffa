-- ===== src/Events/Outbox/Slots.antt =====
-- The pending snapshots of crates/events/src/outbox.rs: a position is held under one slot, and only
-- once.
use mix.Base.{
  ℕ, ◌+◌, ◌≤◌, ◌<◌, List, [], ◌∷◌, Option, none, some, Bool, false, ◌||◌, if◌then◌else◌, ◌≡◌, refl,
  sym, ap, ◌∙◌, arith, ◌==◌, nat_eq, contains, Option-cases, Bool-cases, inl, inr,
}
use mix.Events.Outbox.{
  Slot, slot_eq, Pending, lookup_slot, remove_slot, insert_slot, pend_at, supersede_at,
}

pub lookup-remove_slot :
    (s s' : Slot) (p : Pending)
    → lookup_slot s (remove_slot s' p) ≡ (if s' == s then none else lookup_slot s p)
lookup-remove_slot s s' [] = ground arith
lookup-remove_slot s s' ((r, k) ∷ p) = ground (
  arith,
  lookup-remove_slot s s' p,
  slot_eq.same_iff r s',
  slot_eq.same_iff r s,
  slot_eq.same_iff s' s,
)

pub lookup-insert_slot :
    (s s' : Slot) (k : ℕ) (p : Pending)
    → lookup_slot s (insert_slot s' k p) ≡ (if s' == s then some k else lookup_slot s p)
lookup-insert_slot s s' k p = ground (arith, lookup-remove_slot s s' p)

abbrev is_at : Option ℕ → ℕ → Bool
is_at none k = false
is_at (some j) k = j == k

abbrev pub names : Option Slot → Slot → Bool
names none s = false
names (some r) s = r == s

-- The position is pending under that slot, and under no other.
abbrev pub Held : Pending → ℕ → Option Slot → Type 0
Held p k h = (s : Slot) → is_at (lookup_slot s p) k ≡ names h s

contains-supersede :
    (s : Slot) (found : Option ℕ) (xs : List ℕ) (k : ℕ)
    → contains (elim found [ none ↦ xs | some j ↦ j ∷ xs ]) k ≡ (is_at found k || contains xs k)
contains-supersede s none xs k = refl
contains-supersede s (some j) xs k = refl

abbrev let_go : Option Slot → Slot → Option Slot
let_go none s = none
let_go (some r) s = if r == s then none else some r

Held-insert :
    (p : Pending) (k position : ℕ) (h : Option Slot) (s : Slot)
    → k < position
    → Held p k h
    → Held (insert_slot s position p) k (let_go h s)
Held-insert p k position none s b held r =
    rw (lookup-insert_slot r s position p)
      (elim (Bool-cases (s == r)) [ inl is ↦ rw is (ground arith) | inr other ↦ rw other (held r) ])
Held-insert p k position (some h) s b held r =
    rw (lookup-insert_slot r s position p) (elim (Bool-cases (s == r)) [
      | inl is ↦
          rw is (ground (arith, slot_eq.same_iff s r, slot_eq.same_iff h s, slot_eq.same_iff h r))
      | inr other ↦ rw other (
          held r ∙ ground (arith, slot_eq.same_iff s r, slot_eq.same_iff h s, slot_eq.same_iff h r))
    ])

abbrev pub Below : Pending → ℕ → Type 0
Below p position = (s : Slot) (k : ℕ) → lookup_slot s p ≡ some k → k < position

abbrev pub Unmarked : List ℕ → ℕ → Type 0
Unmarked xs position = (k : ℕ) → position ≤ k → contains xs k ≡ false

abbrev pub let_go_at : Option Slot → Option Slot → Option Slot
let_go_at h none = h
let_go_at h (some s) = let_go h s

abbrev pub matches : Option Slot → Option Slot → Bool
matches none found = false
matches (some r) found = names found r

matches-names : (h : Option Slot) (s : Slot) → names h s ≡ matches h (some s)
matches-names none s = refl
matches-names (some r) s = ground (arith, slot_eq.same_iff r s, slot_eq.same_iff s r)

pub Held-pend :
    (p : Pending) (k position : ℕ) (h found : Option Slot) (xs : List ℕ)
    → k < position
    → Held p k h
    → Held (pend_at position found p) k (let_go_at h found)
      × (contains (supersede_at found p xs) k ≡ (matches h found || contains xs k))
Held-pend p k position none none xs b held = (held, refl)
Held-pend p k position (some r) none xs b held = (held, refl)
Held-pend p k position h (some s) xs b held = (
  Held-insert p k position h s b held,
  contains-supersede s (lookup_slot s p) xs k
      ∙ ap (λ m. m || contains xs k) (held s ∙ matches-names h s),
)

absent :
    (p : Pending) (position : ℕ)
    → Below p position
    → (r : Slot) → is_at (lookup_slot r p) position ≡ false
absent p position below r = elim (Option-cases (lookup_slot r p)) [
  | inl missing ↦ rw missing refl
  | inr (k, at) ↦ rw at (ground (arith, below r k at))
]

pub Held-fresh :
    (found : Option Slot) (position : ℕ) (p : Pending)
    → Below p position
    → Held (pend_at position found p) position found
Held-fresh none position p below r = absent p position below r
Held-fresh (some s) position p below r =
    ap (λ o. is_at o position) (lookup-insert_slot r s position p) ∙ elim (Bool-cases (s == r)) [
      | inl is ↦ rw is (ground arith)
      | inr other ↦ rw other (absent p position below r)
    ]

pub Below-pend :
    (found : Option Slot) (position : ℕ) (p : Pending)
    → Below p position
    → Below (pend_at position found p) (position + 1)
Below-pend none position p below r k e = omega (arith, below r k e)
Below-pend (some s) position p below r k e = elim (Bool-cases (s == r)) [
  | inl is ↦ ground (arith, lookup-insert_slot r s position p, e, is)
  | inr other ↦
      let old : lookup_slot r p ≡ some k =
        sym (lookup-insert_slot r s position p ∙ rw other refl) ∙ e in
      omega (arith, below r k old)
]

pub Unmarked-supersede :
    (found : Option Slot) (position : ℕ) (p : Pending) (xs : List ℕ)
    → Below p position
    → Unmarked xs position
    → Unmarked (supersede_at found p xs) position
Unmarked-supersede none position p xs below u k h = u k h
Unmarked-supersede (some s) position p xs below u k h =
    contains-supersede s (lookup_slot s p) xs k ∙ elim (Option-cases (lookup_slot s p)) [
      | inl missing ↦ rw missing (u k h)
      | inr (j, found) ↦ rw found (ground (arith, below s j found, u k h))
    ]
