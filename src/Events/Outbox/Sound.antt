-- ===== src/Events/Outbox/Sound.antt =====
-- What holds of the marks and the pending snapshots of crates/events/src/outbox.rs between two calls.
use mathlib.Core.Path.{subst}
use mix.Base.{
  any-append, any, ◌||◌, ℕ, ◌+◌, ◌≤◌, ◌<◌, List, [], ◌∷◌, ◌++◌, Option, none, some, Bool, true,
  false, ◌≡◌, refl, sym, ap, ◌∙◌, arith, ◌==◌, nat_eq, contains, length, Bool-cases, Option-cases,
  inl, inr, if◌then◌else◌, ==_refl,
}
use mix.Events.Message.{Event}
use mix.Events.Outbox.{
  Slot, slot_eq, Pending, lookup_slot, remove_slot, pend_at, supersede_at, slot, pend, supersede,
  released,
}
use mix.Events.Outbox.Marks.{has_slot}
use mix.Events.Outbox.Slots.{
  names, lookup-insert_slot, lookup-remove_slot, Below-pend, Unmarked-supersede,
}

-- What a push of an event marks is pending under its slot.
supersede-marked :
    (found : Option Slot) (p : Pending) (xs : List ℕ) (k : ℕ)
    → contains (supersede_at found p xs) k ≡ true
    → contains xs k ≡ false
    → (s : Slot) × (lookup_slot s p ≡ some k) × (found ≡ some s)
supersede-marked none p xs k h fresh = absurd (cc (h, fresh))
supersede-marked (some s) p xs k h fresh = elim (Option-cases (lookup_slot s p)) [
  | inl missing ↦ absurd (ground (arith, h, missing, fresh))
  | inr (j, at) ↦
      let same : (j == k) ≡ true = ground (arith, h, at, fresh) in
      (s, at ∙ ap (λ n. some n) ((nat_eq.same_iff j k).0 same), refl)
]

-- What is pending at a position behind which another is put was pending there.
pend-earlier :
    (found : Option Slot) (p : Pending) (position k : ℕ) (s : Slot)
    → lookup_slot s (pend_at position found p) ≡ some k
    → k < position
    → lookup_slot s p ≡ some k
pend-earlier none p position k s e h = e
pend-earlier (some r) p position k s e h =
    let read = sym (lookup-insert_slot s r position p) ∙ e in
    elim (Bool-cases (r == s)) [
      | inr other ↦ ground (arith, read, other)
      | inl own ↦ absurd (ground (arith, read, own, h))
    ]

pend-latest :
    (found : Option Slot) (p : Pending) (position : ℕ) (s : Slot)
    → ((s : Slot) (k : ℕ) → lookup_slot s p ≡ some k → k < position)
    → lookup_slot s (pend_at position found p) ≡ some position
    → found ≡ some s
pend-latest none p position s below e = absurd (let l = below s position e in omega (arith, l))
pend-latest (some r) p position s below e =
    let read = sym (lookup-insert_slot s r position p) ∙ e in
    elim (Bool-cases (r == s)) [
      | inl own ↦ ap (λ x. some x) ((slot_eq.same_iff r s).0 own)
      | inr other ↦
          let old : lookup_slot s p ≡ some position = ground (arith, read, other) in
          absurd (let l = below s position old in omega (arith, l))
    ]

abbrev released_by : ℕ → Slot → Pending → Option ℕ → Pending
released_by position r p o = elim o [
  | none ↦ p
  | some k ↦ if k == position then remove_slot r p else p
]

released_by-earlier :
    (position : ℕ) (r : Slot) (p : Pending) (o : Option ℕ) (s : Slot) (k : ℕ)
    → lookup_slot s (released_by position r p o) ≡ some k
    → lookup_slot s p ≡ some k
released_by-earlier position r p none s k e = e
released_by-earlier position r p (some j) s k e = elim (Bool-cases (j == position)) [
  | inr other ↦ ap (λ b. lookup_slot s (if b then remove_slot r p else p)) (sym other) ∙ e
  | inl own ↦
      let read : lookup_slot s (remove_slot r p) ≡ some k =
        ap (λ b. lookup_slot s (if b then remove_slot r p else p)) (sym own) ∙ e in
      ground (arith, sym (lookup-remove_slot s r p) ∙ read)
]

released_at-earlier :
    (position : ℕ) (found : Option Slot) (p : Pending) (s : Slot) (k : ℕ)
    → lookup_slot s (elim found [ none ↦ p | some r ↦ released_by position r p (lookup_slot r p) ])
      ≡ some k
    → lookup_slot s p ≡ some k
released_at-earlier position none p s k e = e
released_at-earlier position (some r) p s k e =
    released_by-earlier position r p (lookup_slot r p) s k e

module _ {P : Type 0} where
  -- From a position on, only superseded snapshots are marked, and what is pending under a slot is of
  -- it.
  abbrev pub Sound : ℕ → List (Event P) → Pending → List ℕ → Type 0
  Sound position [] p xs =
      ((k : ℕ) → position ≤ k → contains xs k ≡ false)
      × ((s : Slot) (k : ℕ) → lookup_slot s p ≡ some k → k < position)
  Sound position (event ∷ events) p xs =
      (contains xs position ≡ true
        → (s : Slot) × (slot event ≡ some s) × (any (has_slot s) events ≡ true))
      × ((s : Slot) → lookup_slot s p ≡ some position → slot event ≡ some s)
      × Sound (position + 1) events p xs

  pub Sound-weaken :
      (position : ℕ) (events : List (Event P)) (p p' : Pending) (xs xs' : List ℕ)
      → ((k : ℕ) → position ≤ k → contains xs' k ≡ true → contains xs k ≡ true)
      → ((s : Slot) (k : ℕ) → lookup_slot s p' ≡ some k → lookup_slot s p ≡ some k)
      → Sound position events p xs
      → Sound position events p' xs'
  Sound-weaken position [] p p' xs xs' marks pends (unmarked, below) = (
    λ k h. elim (Bool-cases (contains xs' k)) [
      | inr no' ↦ no'
      | inl yes' ↦ let a = marks k h yes' in let b = unmarked k h in absurd (cc (a, b))
    ],
    λ s k e. below s k (pends s k e),
  )
  Sound-weaken position (event ∷ events) p p' xs xs' marks pends (marked, pending, rest) = (
    λ h. marked (marks position (omega arith) h),
    λ s e. pending s (pends s position e),
    Sound-weaken (position + 1) events p p' xs xs' (λ k h. marks k (omega (arith, h))) pends rest,
  )

  last_of :
      (event : Event P) (s : Slot)
      → slot event ≡ some s
      → (b : Bool) → (b || any (has_slot s) (event ∷ [])) ≡ true
  last_of event s is b =
      let own : has_slot s event ≡ true = ap (λ found. names found s) is ∙ ==_refl s in
      ground (arith, own)

  pub Sound-push :
      (position last : ℕ) (items : List (Event P)) (event : Event P) (p : Pending) (xs : List ℕ)
      → position + length items ≡ last
      → Sound position items p xs
      → Sound position (items ++ event ∷ []) (pend last event p) (supersede event p xs)
  Sound-push position last [] event p xs e (unmarked, below) =
      let here : position ≡ last = omega (arith, e) in
      let u = Unmarked-supersede (slot event) position p xs below unmarked in
      subst (λ n. Sound position (event ∷ []) (pend n event p) (supersede event p xs)) here
        (
          λ h. let free = u position (omega arith) in absurd (cc (h, free)),
          λ s at. pend-latest (slot event) p position s below at,
          (λ k h. u k (omega (arith, h)), Below-pend (slot event) position p below),
        )
  Sound-push position last (item ∷ items) event p xs e (marked, pending, rest) = (
    λ h. elim (Bool-cases (contains xs position)) [
      | inl yes' ↦
          let (s, is, later) = marked yes' in
          (s, is, any-append (has_slot s) items (event ∷ []) ∙ ground (arith, later))
      | inr no' ↦
          let (s, at, is) = supersede-marked (slot event) p xs position h no' in
          (
            s,
            pending s at,
            any-append (has_slot s) items (event ∷ [])
                ∙ last_of event s is (any (has_slot s) items),
          )
    ],
    λ s at. pending s (pend-earlier (slot event) p last position s at (omega (arith, e))),
    Sound-push (position + 1) last items event p xs (omega (arith, e)) rest,
  )

  pub released-earlier :
      (position : ℕ) (event : Event P) (p : Pending) (s : Slot) (k : ℕ)
      → lookup_slot s (released position event p) ≡ some k
      → lookup_slot s p ≡ some k
  released-earlier position event p s k e = released_at-earlier position (slot event) p s k e
