-- ===== src/Machine/Map/Same.antt =====
-- What is found in a map by its values, and that maps which hold the same are the same.
use mathlib.Core.Path.{subst}
use mix.Base.{
  [], ◌∷◌, Option, none, some, some_inj, Bool, true, false, ◌==◌, nat_eq, text_eq, Text, ◌≡◌, refl,
  arith, ==_refl, inl, inr, Bool-cases, ◌∙◌, sym, count,
}
use mix.Declared.Packages.{once}
use mix.Machine.Map.{Map, precedes, lookup, key_of, keys_of, Above, Sorted}
use mix.Machine.Map.Laws.{Above-trans, lookup-Above, precedes-apart, precedes-ne, precedes-total}

module _ {V : Type 0} where
  lookup-head : (k : Text) (v : V) (m : Map V) → lookup k ((k, v) ∷ m) ≡ some v
  unfolding lookup
  lookup-head k v m = rw (==_refl k)

  lookup-tail :
      (j k : Text) (v : V) (m : Map V) → (k == j) ≡ false → lookup j ((k, v) ∷ m) ≡ lookup j m
  unfolding lookup
  lookup-tail j k v m h = rw h

  -- What is found is in a sorted map at its key.
  pub lookup-here :
      (i j : Text) (v : V) (m : Map V) → Above i m → lookup j m ≡ some v → precedes i j ≡ true
  unfolding lookup
  lookup-here i j v [] a h = cc
  lookup-here i j v ((k, w) ∷ m) a h = ground (arith, text_eq.same_iff k j, lookup-here i j v m a.1)

  pub key_of-some :
      (p : V → Bool) (k : Text) (m : Map V)
      → Sorted m
      → key_of p m ≡ some k
      → (v : V) × (lookup k m ≡ some v) × (p v ≡ true)
  unfolding key_of lookup
  key_of-some p k [] s h = absurd (cc)
  key_of-some p k ((j, w) ∷ m) s h = elim (Bool-cases (p w)) [
    | inl fits ↦
        let e : j ≡ k = some_inj (rw fits at h) in
        (w, subst (λ q. lookup q ((j, w) ∷ m) ≡ some w) e (lookup-head j w m), fits)
    | inr other ↦
        let (v, found, fits) = key_of-some p k m s.1 (rw other at h) in
        (v, lookup-tail k j w m (precedes-apart j k (lookup-here j k v m s.0 found)) ∙ found, fits)
  ]

  pub key_of-none :
      (p : V → Bool) (k : Text) (v : V) (m : Map V)
      → key_of p m ≡ none
      → lookup k m ≡ some v
      → p v ≡ false
  unfolding key_of lookup
  key_of-none p k v [] h found = cc
  key_of-none p k v ((j, w) ∷ m) h found = ground (arith, key_of-none p k v m)

  -- Of two sorted maps that hold the same, the first key of one is not below the other's.
  heads :
      (j k : Text) (v w : V) (m n : Map V)
      → Sorted ((j, v) ∷ m)
      → Sorted ((k, w) ∷ n)
      → lookup j ((j, v) ∷ m) ≡ lookup j ((k, w) ∷ n)
      → precedes j k ≡ false
  heads j k v w m n s t h = elim (Bool-cases (precedes j k)) [
    | inr above ↦ above
    | inl below ↦
        let missing = lookup-Above j ((k, w) ∷ n) (below, Above-trans j k n below t.0) in
        absurd (cc (missing, h, lookup-head j v m))
  ]

  tails :
      (k : Text) (v w : V) (m n : Map V)
      → Above k m
      → Above k n
      → ((p : Text) → lookup p ((k, v) ∷ m) ≡ lookup p ((k, w) ∷ n))
      → (p : Text) → lookup p m ≡ lookup p n
  tails k v w m n a b h p = elim (Bool-cases (k == p)) [
    | inl is ↦
        let e = (text_eq.same_iff k p).0 is in
        subst (λ q. lookup q m ≡ lookup q n) e (lookup-Above k m a ∙ sym (lookup-Above k n b))
    | inr other ↦ sym (lookup-tail p k v m other) ∙ h p ∙ lookup-tail p k w n other
  ]

  pub lookup-ext :
      (m n : Map V) → Sorted m → Sorted n → ((p : Text) → lookup p m ≡ lookup p n) → m ≡ n
  lookup-ext [] [] s t h = refl
  lookup-ext [] ((k, w) ∷ n) s t h = unfold lookup in absurd (cc (h k, lookup-head k w n))
  lookup-ext ((j, v) ∷ m) [] s t h = unfold lookup in absurd (cc (h j, lookup-head j v m))
  lookup-ext ((j, v) ∷ m) ((k, w) ∷ n) s t h = elim (Bool-cases (k == j)) [
    | inr other ↦
        let forth = heads j k v w m n s t (h j) in
        let back = heads k j w v n m t s (sym (h k)) in
        absurd (cc (back, precedes-total j k other forth))
    | inl is ↦
        let e : k ≡ j = (text_eq.same_iff k j).0 is in
        let same : (p : Text) → lookup p ((j, v) ∷ m) ≡ lookup p ((j, w) ∷ n) =
          subst (λ q. (p : Text) → lookup p ((j, v) ∷ m) ≡ lookup p ((q, w) ∷ n)) e h in
        let above : Above j n = subst (λ q. Above q n) e t.0 in
        let value : v ≡ w = some_inj (sym (lookup-head j v m) ∙ same j ∙ lookup-head j w n) in
        let rest = lookup-ext m n s.1 t.1 (tails j v w m n s.0 above same) in
        rw (value, rest, e) refl
  ]

  abbrev pub holds : (V → Bool) → Option V → Bool
  holds p none = false
  holds p (some v) = p v

  keys_of-Above : (p : V → Bool) (k : Text) (m : Map V) → Above k m → count k (keys_of p m) ≡ 0
  unfolding keys_of
  keys_of-Above p k [] a = refl
  keys_of-Above p k ((j, w) ∷ m) a = ground (arith, precedes-ne k j a.0, keys_of-Above p k m a.1)

  -- A key is listed once if its value passes the test, and else not.
  pub count-keys_of :
      (p : V → Bool) (k : Text) (m : Map V)
      → Sorted m
      → count k (keys_of p m) ≡ once (holds p (lookup k m))
  unfolding keys_of lookup
  count-keys_of p k [] s = refl
  count-keys_of p k ((j, w) ∷ m) s = elim (Bool-cases (j == k)) [
    | inr other ↦ ground (arith, other, count-keys_of p k m s.1)
    | inl is ↦
        let e = (text_eq.same_iff j k).0 is in
        let none' : count k (keys_of p m) ≡ 0 =
          subst (λ q. count q (keys_of p m) ≡ 0) e (keys_of-Above p j m s.0) in
        ground (arith, is, none')
  ]
