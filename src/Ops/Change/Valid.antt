-- ===== src/Ops/Change/Valid.antt =====
-- The package list that is settled on is valid, whatever was read.
use mathlib.Core.Path.{subst}
use mix.Base.{
  List, [], ◌∷◌, Option, none, some, some_inj, Bool, true, false, not, ◌==◌, nat_eq, text_eq, find,
  contains, Text, text, ◌↔◌, ◌≡◌, refl, arith, ◌∙◌, ap, inl, inr, Bool-cases, Option-cases,
}
use mix.Declared.State.{StateManifest, required_packages, seed}
use mix.Nixgen.Write.{is_identifier}
use mix.Ops.Change.{
  state_version, Invalid, Validated, Parsed, check, checked, lists_names, Source, Settled, settled,
  settle, validate, validated, and_valid, validated_option, manifest_eq,
}

-- What `check` lets through.
pub record IsValid (m : StateManifest) : Type 0 where
  pub this_version : m.version ≡ state_version
  pub names : (p : Text) → contains m.packages p ≡ true → is_identifier p ≡ true
  pub required : (p : Text) → contains required_packages p ≡ true → contains m.packages p ≡ true

find-none :
    (test : Text → Bool) (xs : List Text) (x : Text)
    → find test xs ≡ none
    → contains xs x ≡ true
    → test x ≡ false
find-none test [] x h c = cc
find-none test (y ∷ xs) x h c = elim (Bool-cases (y == x)) [
  | inl is ↦ ground (arith, h, ap test ((text_eq.same_iff y x).0 is))
  | inr other ↦ ground (arith, h, c, other, find-none test xs x)
]

none-find :
    (test : Text → Bool) (xs : List Text)
    → ((x : Text) → contains xs x ≡ true → test x ≡ false)
    → find test xs ≡ none
none-find test [] h = refl
none-find test (y ∷ xs) h =
    ground (arith, h y, text_eq.same_iff y y, none-find test xs (λ x c. h x (ground (arith, c))))

lists_names-ok :
    (m m' : StateManifest) (o : Option Text)
    → lists_names m o ≡ Validated.ok m'
    → (o ≡ none) × (find (λ r. not (contains m.packages r)) required_packages ≡ none) × (m ≡ m')
lists_names-ok m m' (some x) h = absurd (cc)
lists_names-ok m m' none h =
    elim (Option-cases (find (λ r. not (contains m.packages r)) required_packages)) [
      | inl none' ↦ (refl, none', ground (arith, h, none'))
      | inr (x, e) ↦ absurd (ground (arith, h, e))
    ]

lists-IsValid :
    (m : StateManifest)
    → m.version ≡ state_version
    → find (λ p. not (is_identifier p)) m.packages ≡ none
    → find (λ r. not (contains m.packages r)) required_packages ≡ none
    → IsValid m
lists-IsValid m version named all' = record {
  this_version = version;
  names = λ p c. ground (arith, find-none (λ x. not (is_identifier x)) m.packages p named c);
  required = λ p c.
      ground (arith, find-none (λ r. not (contains m.packages r)) required_packages p all' c);
}

check-IsValid : (m m' : StateManifest) → check m ≡ Validated.ok m' → IsValid m × (m ≡ m')
unfolding check
check-IsValid m m' h =
    let version : m.version ≡ state_version = ground (arith, h) in
    let rest : lists_names m (find (λ p. not (is_identifier p)) m.packages) ≡ Validated.ok m' =
      ground (arith, h) in
    let named = lists_names-ok m m' (find (λ p. not (is_identifier p)) m.packages) rest in
    (lists-IsValid m version named.0 named.1, named.2)

IsValid-check : (m : StateManifest) → IsValid m → check m ≡ Validated.ok m
unfolding check
IsValid-check m v =
    let named =
      none-find (λ p. not (is_identifier p)) m.packages (λ p c. ground (arith, v.names p c)) in
    let all' =
      none-find (λ r. not (contains m.packages r)) required_packages
        (λ r c. ground (arith, v.required r c)) in
    ground (arith, v.this_version, named, all')

-- A list that was read is taken exactly if it is of this version, all its packages are identifiers and
-- the packages that mix needs are among them; it is taken as it is.
pub check-iff-IsValid :
    (m m' : StateManifest) → (check m ≡ Validated.ok m') ↔ (IsValid m × (m ≡ m'))
check-iff-IsValid m m' = (λ h. check-IsValid m m' h, λ v. IsValid-check m v.0 ∙ ap Validated.ok v.1)

seed-IsValid : IsValid seed
unfolding is_identifier
seed-IsValid = record {
  this_version = refl;
  names = λ p c.
      let e : text "git" ≡ p = ground (arith, c, text_eq.same_iff (text "git") p) in rw (← e) refl;
  required = λ p c. c;
}

current_inj :
    {a b : StateManifest} {s t : Source} → Settled.current a s ≡ Settled.current b t → a ≡ b
current_inj h = cc

settled-IsValid :
    (o : Option Validated) (kept : Option StateManifest) (m : StateManifest) (source : Source)
    → ((x : StateManifest) → o ≡ some (Validated.ok x) → IsValid x)
    → ((x : StateManifest) → kept ≡ some x → IsValid x)
    → settled o kept ≡ Settled.current m source
    → IsValid m
settled-IsValid none none m source f g h = subst IsValid (current_inj h) seed-IsValid
settled-IsValid none (some k) m source f g h = subst IsValid (current_inj h) (g k refl)
settled-IsValid (some (Validated.ok x)) none m source f g h =
    subst IsValid (current_inj h) (f x refl)
settled-IsValid (some (Validated.ok x)) (some k) m source f g h = elim (Bool-cases (x == k)) [
  | inl same ↦ subst IsValid (current_inj (rw same at h)) (f x refl)
  | inr other ↦ subst IsValid (current_inj (rw other at h)) (g k refl)
]
settled-IsValid (some (Validated.err (Invalid.newer v))) kept m source f g h = absurd (cc)
settled-IsValid (some (Validated.err (Invalid.unreadable _))) none m source f g h =
    subst IsValid (current_inj h) seed-IsValid
settled-IsValid (some (Validated.err (Invalid.unknown_version _))) none m source f g h =
    subst IsValid (current_inj h) seed-IsValid
settled-IsValid (some (Validated.err (Invalid.bad_package _))) none m source f g h =
    subst IsValid (current_inj h) seed-IsValid
settled-IsValid (some (Validated.err (Invalid.missing _))) none m source f g h =
    subst IsValid (current_inj h) seed-IsValid
settled-IsValid (some (Validated.err (Invalid.unreadable _))) (some k) m source f g h =
    subst IsValid (current_inj h) (g k refl)
settled-IsValid (some (Validated.err (Invalid.unknown_version _))) (some k) m source f g h =
    subst IsValid (current_inj h) (g k refl)
settled-IsValid (some (Validated.err (Invalid.bad_package _))) (some k) m source f g h =
    subst IsValid (current_inj h) (g k refl)
settled-IsValid (some (Validated.err (Invalid.missing _))) (some k) m source f g h =
    subst IsValid (current_inj h) (g k refl)

validated_option-ok :
    (v : Validated) (x : StateManifest) → validated_option v ≡ some x → v ≡ Validated.ok x
validated_option-ok (Validated.ok m) x h = ap Validated.ok (some_inj h)
validated_option-ok (Validated.err e) x h = absurd (cc)

module _ (parse : Text → Parsed) where
  validate-IsValid :
      (raw : Text) (x : StateManifest) → validate parse raw ≡ Validated.ok x → IsValid x
  unfolding validate
  validate-IsValid raw x h = checked-IsValid (parse raw) x h
    where
      checked-IsValid : (p : Parsed) (x : StateManifest) → checked p ≡ Validated.ok x → IsValid x
      checked-IsValid (Parsed.ok m) x h =
          let (valid, same) = check-IsValid m x h in subst IsValid same valid
      checked-IsValid (Parsed.err e) x h = absurd (cc)

  -- Whatever is read from the file and from the generation, the list that is settled on is valid.
  pub settle-IsValid :
      (from_file from_generation : Option Text) (m : StateManifest) (source : Source)
      → settle parse from_file from_generation ≡ Settled.current m source
      → IsValid m
  unfolding settle
  settle-IsValid from_file from_generation m source h =
      settled-IsValid (validated parse from_file) (and_valid parse from_generation) m source
        (of_file from_file) (of_generation from_generation) h
    where
      of_file :
          (o : Option Text) (x : StateManifest)
          → validated parse o ≡ some (Validated.ok x)
          → IsValid x
      of_file none x e = absurd (cc)
      of_file (some raw) x e = validate-IsValid raw x (some_inj e)

      of_generation : (o : Option Text) (x : StateManifest) → and_valid parse o ≡ some x → IsValid x
      of_generation none x e = absurd (cc)
      of_generation (some raw) x e =
          validate-IsValid raw x (validated_option-ok (validate parse raw) x e)
