-- ===== src/Declared/Order.antt =====
-- `StateManifest::sorted`: the packages in strictly ascending order, none lost and none added.
use mathlib.Core.Path.{subst}
use mix.Base.{
  List, [], ◌∷◌, true, false, ◌≡◌, arith, ◌==◌, nat_eq, text_eq, contains, Text, refl, ◌∙◌, sym, ap,
  Bool-cases, inl, inr,
}
use mix.Declared.State.{StateManifest, text_leb, insert_text, sort_texts, dedup, sorted}
use mix.Declared.Packages.{contains-sort_texts}

pub text_leb-total : (a b : Text) → text_leb a b ≡ false → text_leb b a ≡ true
unfolding text_leb
text_leb-total [] b h = cc
text_leb-total (x ∷ a) [] h = refl
text_leb-total (x ∷ a) (y ∷ b) h = ground (arith, text_leb-total a b)

abbrev pub Ascending : List Text → Type 0
Ascending [] = Unit
Ascending (t ∷ []) = Unit
Ascending (t ∷ u ∷ us) = (text_leb t u ≡ true) × Ascending (u ∷ us)

-- Each text is below the next and differs from it.
abbrev pub StrictlyAscending : List Text → Type 0
StrictlyAscending [] = Unit
StrictlyAscending (t ∷ []) = Unit
StrictlyAscending (t ∷ u ∷ us) =
    (text_leb t u ≡ true) × ((t == u) ≡ false) × StrictlyAscending (u ∷ us)

insert_text-Ascending : (t : Text) (ts : List Text) → Ascending ts → Ascending (insert_text t ts)
unfolding insert_text
insert_text-Ascending t [] h = tt
insert_text-Ascending t (u ∷ []) h = elim (Bool-cases (text_leb t u)) [
  | inl below ↦ rw below (below, tt)
  | inr above ↦ rw above (text_leb-total t u above, tt)
]
insert_text-Ascending t (u ∷ w ∷ us) h = elim (Bool-cases (text_leb t u)) [
  | inl below ↦ rw below (below, h)
  | inr above ↦
      let rest = insert_text-Ascending t (w ∷ us) h.1 in
      elim (Bool-cases (text_leb t w)) [
        | inl first ↦ rw (above, first) (text_leb-total t u above, (first, h.1))
        | inr later ↦ rw (above, later) (h.0, rw later at rest)
      ]
]

pub sort_texts-Ascending : (ts : List Text) → Ascending (sort_texts ts)
unfolding sort_texts
sort_texts-Ascending [] = tt
sort_texts-Ascending (t ∷ ts) = insert_text-Ascending t (sort_texts ts) (sort_texts-Ascending ts)

-- The list begins with what it began with.
dedup-head : (u : Text) (us : List Text) → (rest : List Text) × (dedup (u ∷ us) ≡ u ∷ rest)
unfolding dedup
dedup-head u [] = ([], refl)
dedup-head u (w ∷ us) = elim (Bool-cases (u == w)) [
  | inl same ↦
      let (rest, e) = dedup-head w us in
      (rest, rw same (e ∙ ap (λ x. x ∷ rest) (sym ((text_eq.same_iff u w).0 same))))
  | inr other ↦ (dedup (w ∷ us), rw other refl)
]

dedup-StrictlyAscending : (ts : List Text) → Ascending ts → StrictlyAscending (dedup ts)
unfolding dedup
dedup-StrictlyAscending [] h = tt
dedup-StrictlyAscending (t ∷ []) h = tt
dedup-StrictlyAscending (t ∷ u ∷ us) h =
    let strict = dedup-StrictlyAscending (u ∷ us) h.1 in
    elim (Bool-cases (t == u)) [
      | inl same ↦ rw same strict
      | inr other ↦
          let (rest, e) = dedup-head u us in
          let strict' : StrictlyAscending (u ∷ rest) = subst StrictlyAscending e strict in
          rw (other, e) (h.0, other, strict')
    ]

contains-dedup : (ts : List Text) (p : Text) → contains (dedup ts) p ≡ contains ts p
unfolding dedup
contains-dedup [] p = refl
contains-dedup (t ∷ []) p = refl
contains-dedup (t ∷ u ∷ us) p = ground (
  arith,
  contains-dedup (u ∷ us) p,
  text_eq.same_iff t u,
  text_eq.same_iff t p,
  text_eq.same_iff u p,
)

-- A sorted manifest has the same packages, in strictly ascending order: none twice.
pub sorted-StrictlyAscending :
    (m : StateManifest) (p : Text)
    → StrictlyAscending (sorted m).packages
      × (contains (sorted m).packages p ≡ contains m.packages p)
unfolding sorted
sorted-StrictlyAscending m p = (
  dedup-StrictlyAscending (sort_texts m.packages) (sort_texts-Ascending m.packages),
  contains-dedup (sort_texts m.packages) p ∙ contains-sort_texts m.packages p,
)
