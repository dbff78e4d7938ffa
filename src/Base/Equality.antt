-- ===== src/Base/Equality.antt =====
-- Equality tests as instances, and the membership tests that rest on them.
use Prim.Native.Nat.{ℕ, suc, ◌+◌, compare, Ordering}
use Prim.Native.Char.{code}
use Prim.Native.String.{String}
use mathlib.Core.Path.{◌≡◌, refl}
use mathlib.Core.Logic.{◌↔◌}
use mathlib.Core.Bool.{Bool, true, false, ◌||◌}
use mathlib.Core.List.{List, [], ◌∷◌, ◌++◌, reverse, reverse-cons}
use native.Mathlib.Omega.{arith}
use package.mix.Base.Tests.{ltb, if◌then◌else◌}

pub record Eq {ℓ} (T : Type ℓ) : Type ℓ where
  pub same : (x y : T) → Bool
  pub same_iff : (x y : T) → (same x y ≡ true) ↔ (x ≡ y)

infix 50 ◌==◌
abbrev pub ◌==◌ {ℓ} : {T : Type ℓ} ⦃eq : Eq T⦄ (x y : T) → Bool
◌==◌ ⦃eq⦄ x y = eq.same x y

abbrev nat_beq : ℕ → ℕ → Bool
nat_beq a b = elim (compare a b) [ Ordering.eq ↦ true | _ ↦ false ]

pub nat_beq_iff : (a b : ℕ) → (nat_beq a b ≡ true) ↔ (a ≡ b)
nat_beq_iff a b = ground arith

instance abbrev pub nat_eq : Eq ℕ
nat_eq = record { same = nat_beq; same_iff = nat_beq_iff }

-- A derived `PartialEq` is a decision procedure.
abbrev pub decided {ℓ} : {A : Type ℓ} {x : A} {y : A} → Dec (x ≡ y) → Bool
decided (yes _) = true
decided (no _) = false

pub decided_iff {ℓ} : {A : Type ℓ} {x : A} {y : A} (d : Dec (x ≡ y)) → (decided d ≡ true) ↔ (x ≡ y)
decided_iff (yes p) = (λ _. p, λ _. refl)
decided_iff (no p) = (λ h. cc, λ h. absurd (p h))

abbrev pub derived {ℓ} : {A : Type ℓ} → Discrete A → Eq A
derived d = record { same = λ a b. decided (d a b); same_iff = λ a b. decided_iff (d a b) }

-- A `String` or a `PathBuf` is its bytes.
abbrev pub Text : Type 0
Text = List ℕ

abbrev pub text : String → Text
text String.[] = []
text (String.◌∷◌ c s) = code c ∷ text s

abbrev text_beq : Text → Text → Bool
text_beq [] [] = true
text_beq [] (b ∷ bs) = false
text_beq (a ∷ as') [] = false
text_beq (a ∷ as') (b ∷ bs) = elim (nat_beq a b) [ true ↦ text_beq as' bs | false ↦ false ]

pub text_beq_iff : (a b : Text) → (text_beq a b ≡ true) ↔ (a ≡ b)
text_beq_iff [] [] = (λ _. refl, λ _. refl)
text_beq_iff [] (b ∷ bs) = (λ h. cc, λ h. cc)
text_beq_iff (a ∷ as') [] = (λ h. cc, λ h. cc)
text_beq_iff (a ∷ as') (b ∷ bs) = ground (arith, text_beq_iff as' bs)

instance abbrev pub text_eq : Eq Text
text_eq = record { same = text_beq; same_iff = text_beq_iff }

module _ {ℓ} {A : Type ℓ} ⦃e : Eq A⦄ where
  pub ==_refl : (a : A) → (a == a) ≡ true
  ==_refl a = (e.same_iff a a).1 refl

  abbrev pub contains : List A → A → Bool
  contains [] a = false
  contains (x ∷ xs) a = x == a || contains xs a

  pub contains-append :
      (xs ys : List A) (a : A) → contains (xs ++ ys) a ≡ (contains xs a || contains ys a)
  contains-append [] ys a = refl
  contains-append (x ∷ xs) ys a = ground (arith, contains-append xs ys a)

  abbrev pub count : A → List A → ℕ
  count a [] = 0
  count a (x ∷ xs) = if x == a then suc (count a xs) else count a xs

  pub count-append : (a : A) (xs ys : List A) → count a (xs ++ ys) ≡ count a xs + count a ys
  count-append a [] ys = omega arith
  count-append a (x ∷ xs) ys = ground (arith, count-append a xs ys)

  pub count-reverse : (a : A) (xs : List A) → count a (reverse xs) ≡ count a xs
  count-reverse a [] = refl
  count-reverse a (x ∷ xs) =
      rw (reverse-cons x xs, count-append a (reverse xs) (x ∷ []), count-reverse a xs)
        (ground arith)

  pub contains-count : (xs : List A) (a : A) → contains xs a ≡ ltb 0 (count a xs)
  contains-count [] a = refl
  contains-count (x ∷ xs) a = ground (arith, contains-count xs a)

  pub contains-reverse : (xs : List A) (a : A) → contains (reverse xs) a ≡ contains xs a
  contains-reverse xs a =
      rw (contains-count (reverse xs) a, contains-count xs a, count-reverse a xs)

  -- `Vec::remove` at the first position of `a`.
  abbrev pub remove_first : A → List A → List A
  remove_first a [] = []
  remove_first a (x ∷ xs) = if x == a then xs else x ∷ remove_first a xs

  pub count-remove_first_self :
      (a : A) (xs : List A) → contains xs a ≡ true → suc (count a (remove_first a xs)) ≡ count a xs
  count-remove_first_self a [] h = cc
  count-remove_first_self a (x ∷ xs) h = ground (arith, count-remove_first_self a xs)

  pub count-remove_first_ne :
      (a b : A) (xs : List A) → (a == b) ≡ false → count b (remove_first a xs) ≡ count b xs
  count-remove_first_ne a b [] h = refl
  count-remove_first_ne a b (x ∷ xs) h =
      ground (arith, count-remove_first_ne a b xs, e.same_iff x a, e.same_iff x b, e.same_iff a b)

  pub contains-remove_first :
      (a b : A) (xs : List A)
      → contains xs a ≡ true
      → (a == b || contains (remove_first a xs) b) ≡ contains xs b
  contains-remove_first a b [] h = cc
  contains-remove_first a b (x ∷ xs) h =
      ground (arith, contains-remove_first a b xs, e.same_iff x a, e.same_iff x b, e.same_iff a b)
