-- ===== src/Run/Runner/Tables.antt =====
-- The tables of a runner of crates/core/src/run/mod.rs fit its steps behind every change of them.
use mix.Base.{
  any-append, ℕ, zero, suc, ◌<◌, List, [], ◌∷◌, ◌++◌, Option, none, some, Bool, true, not,
  if◌then◌else◌, ◌≡◌, refl, sym, ◌∙◌, arith, inl, inr, ◌⊎◌, ◌==◌, nat_eq, filter, any, get_or,
  get_elem?, set, length, Bool-cases, some_inj,
}
use mix.Effect.Action.{Action}
use mix.Run.Runner.{StepSpec, Doubt, Runner, repeated}
use mix.Run.Runner.Moves.{is_nil, owned_by, flattened, caused}
use mix.Run.Runner.Rounds.{forget}
use mix.Run.Runner.Invariant.{Tabled, Noded}

length-set : {A : Type 0} (xs : List A) (i : ℕ) (v : A) → length (set xs i v) ≡ length xs
length-set [] i v = refl
length-set (x ∷ xs) zero v = refl
length-set (x ∷ xs) (suc i) v = omega (arith, length-set xs i v)

pub get_or-set :
    {A : Type 0} (xs : List A) (i j : ℕ) (v d : A)
    → i < length xs
    → get_or (set xs i v) j d ≡ (if i == j then v else get_or xs j d)
get_or-set [] i j v d h = absurd (omega (arith, h))
get_or-set (x ∷ xs) zero zero v d h = ground arith
get_or-set (x ∷ xs) zero (suc j) v d h = ground arith
get_or-set (x ∷ xs) (suc i) zero v d h = ground arith
get_or-set (x ∷ xs) (suc i) (suc j) v d h = ground (arith, get_or-set xs i j v d (omega (arith, h)))

flattened-set :
    (xs : List (Option ℕ)) (i cause d c : ℕ)
    → flattened (get_elem? (set xs i (some cause)) d) ≡ some c
    → (c ≡ cause) ⊎ (flattened (get_elem? xs d) ≡ some c)
flattened-set [] i cause d c e = inr e
flattened-set (x ∷ xs) zero cause zero c e = inl (sym (some_inj e))
flattened-set (x ∷ xs) zero cause (suc d) c e = inr e
flattened-set (x ∷ xs) (suc i) cause zero c e = inr e
flattened-set (x ∷ xs) (suc i) cause (suc d) c e = flattened-set xs i cause d c e

pub flattened-repeated :
    (steps : List StepSpec) (d : ℕ) → flattened (get_elem? (repeated steps none) d) ≡ none
flattened-repeated [] d = refl
flattened-repeated (s ∷ steps) zero = refl
flattened-repeated (s ∷ steps) (suc d) = flattened-repeated steps d

pub Tabled-caused :
    (r : Runner) (step cause : ℕ) → Tabled r → cause < length r.steps → Tabled (caused r step cause)
unfolding caused
Tabled-caused r step cause tables h =
    let before = if is_nil r.causes then repeated r.steps none else r.causes in
    let known : (d c : ℕ) → flattened (get_elem? before d) ≡ some c → c < length r.steps = λ d c e.
      elim (Bool-cases (is_nil r.causes)) [
        | inl empty ↦ absurd (cc (flattened-repeated r.steps d, rw empty at e))
        | inr kept ↦ tables.known d c (rw kept at e)
      ] in
    record {
      keyed = tables.keyed;
      journaled = tables.journaled;
      numbered = tables.numbered;
      noded = tables.noded;
      known = λ d c e. elim (flattened-set before step cause d c e) [
        | inl same ↦ omega (arith, same, h)
        | inr old ↦ known d c old
      ];
    }

pub Tabled-numbered :
    (r : Runner) (step id : ℕ)
    → Tabled r
    → step < length r.steps
    → Tabled (record r { nodes = set r.nodes step (some id) })
Tabled-numbered r step id tables h = record {
  keyed = tables.keyed;
  journaled = tables.journaled;
  numbered = length-set r.nodes step (some id) ∙ tables.numbered;
  noded = λ j e.
      let (low, id', at) = tables.noded j e in
      let read = get_or-set r.nodes step j (some id) none (omega (arith, h, tables.numbered)) in
      elim (Bool-cases (step == j)) [
        | inl here ↦ (low, id, read ∙ rw here refl)
        | inr there ↦ (low, id', read ∙ rw there at)
      ];
  known = tables.known;
}

pub Noded-numbered :
    (r : Runner) (step id : ℕ)
    → Tabled r
    → step < length r.steps
    → Noded (record r { nodes = set r.nodes step (some id) }) step
Noded-numbered r step id tables h = (
  h,
  id,
  get_or-set r.nodes step step (some id) none (omega (arith, h, tables.numbered)) ∙ ground arith,
)

-- A change of the journal and the doubts that leaves only noded steps owned.
owning :
    (r : Runner) (journal : List (List (List Action))) (doubts : List Doubt)
    → Tabled r
    → length journal ≡ length r.journal
    → ((j : ℕ) → owned_by journal doubts j ≡ true → Noded r j)
    → Tabled (record r { journal = journal; doubts = doubts })
owning r journal doubts tables sized noded = record {
  keyed = tables.keyed;
  journaled = sized ∙ tables.journaled;
  numbered = tables.numbered;
  noded = noded;
  known = tables.known;
}

pub Tabled-journaled :
    (r : Runner) (step : ℕ) (entries : List (List Action))
    → Tabled r
    → Noded r step
    → Tabled (record r { journal = set r.journal step entries })
Tabled-journaled r step entries tables noded =
    owning r (set r.journal step entries) r.doubts tables (length-set r.journal step entries)
      (λ j e.
        let read =
          get_or-set r.journal step j entries [] (omega (arith, noded.0, tables.journaled)) in
        elim (Bool-cases (step == j)) [
          | inl here ↦ rw ((nat_eq.same_iff step j).0 here) at noded
          | inr there ↦ tables.noded j (ground (arith, e, read, there))
        ])

any-filter :
    (p q : Doubt → Bool) (doubts : List Doubt)
    → any p (filter q doubts) ≡ true
    → any p doubts ≡ true
any-filter p q [] h = h
any-filter p q (d ∷ doubts) h = ground (arith, h, any-filter p q doubts)

pub Tabled-forget :
    (r : Runner) (step : ℕ) → Tabled r → step < length r.steps → Tabled (forget r step)
unfolding forget
Tabled-forget r step tables h =
    let rest = filter (λ d. not (d.step == step)) r.doubts in
    owning r (set r.journal step []) rest tables (length-set r.journal step []) (λ j e.
      let read = get_or-set r.journal step j [] [] (omega (arith, h, tables.journaled)) in
      let fewer = any-filter (λ d. d.step == j) (λ d. not (d.step == step)) r.doubts in
      tables.noded j (ground (arith, e, read, fewer)))

pub Tabled-in_doubt :
    (r : Runner) (step : ℕ) (undo : List Action)
    → Tabled r
    → Noded r step
    → Tabled (record r { doubts = r.doubts ++ record { step = step; undo = undo } ∷ [] })
Tabled-in_doubt r step undo tables noded =
    owning r r.journal (r.doubts ++ record { step = step; undo = undo } ∷ []) tables refl (λ j e.
      let added =
        any-append (λ d. d.step == j) r.doubts (record { step = step; undo = undo } ∷ []) in
      elim (Bool-cases (step == j)) [
        | inl here ↦ rw ((nat_eq.same_iff step j).0 here) at noded
        | inr there ↦ tables.noded j (ground (arith, e, added, there))
      ])
