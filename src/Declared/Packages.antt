-- ===== src/Declared/Packages.antt =====
-- What the operations on the list of packages keep, and what they drop.
use mix.Base.{
  ℕ, List, [], ◌∷◌, Bool, true, false, not, ◌&&◌, ◌||◌, ◌≡◌, arith, ◌==◌, nat_eq, text_eq, contains,
  count, filter, Text, refl, ◌∙◌, ap, Bool-cases, inl, inr,
}
use mix.Declared.State.{
  StateManifest, insert_text, sort_texts, protected, protected_from, without, partition,
  partition_from, required_packages,
}

abbrev pub once : Bool → ℕ
once true = 1
once false = 0

contains-same : (xs : List Text) (a b : Text) → (a == b) ≡ true → contains xs a ≡ contains xs b
contains-same xs a b h = ap (contains xs) ((text_eq.same_iff a b).0 h)

count-partition_from :
    (packages seen requested : List Text) (p : Text)
    → (count p (partition_from packages seen requested).installed
        ≡ once (contains requested p && contains packages p && not (contains seen p)))
      × (count p (partition_from packages seen requested).missing
          ≡ once (contains requested p && not (contains packages p) && not (contains seen p)))
unfolding partition_from
count-partition_from packages seen [] p = (refl, refl)
count-partition_from packages seen (x ∷ requested) p = elim (Bool-cases (x == p)) [
  | inl is ↦ ground (
    arith,
    is,
    contains-same seen x p is,
    contains-same packages x p is,
    count-partition_from packages seen requested p,
    count-partition_from packages (x ∷ seen) requested p,
  )
  | inr other ↦ ground (
    arith,
    other,
    count-partition_from packages seen requested p,
    count-partition_from packages (x ∷ seen) requested p,
  )
]

-- A partition of a request lists each requested package once: among the installed ones if the
-- manifest has it, among the missing ones if not, and no other package.
pub count-partition :
    (m : StateManifest) (requested : List Text) (p : Text)
    → (count p (partition m requested).installed
        ≡ once (contains requested p && contains m.packages p))
      × (count p (partition m requested).missing
          ≡ once (contains requested p && not (contains m.packages p)))
unfolding partition
count-partition m requested p = ground (arith, count-partition_from m.packages [] requested p)

contains-filter :
    (removed packages : List Text) (p : Text)
    → contains (filter (λ x. not (contains removed x)) packages) p
      ≡ (contains packages p && not (contains removed p))
contains-filter removed [] p = refl
contains-filter removed (x ∷ packages) p = elim (Bool-cases (x == p)) [
  | inl is ↦ ground (arith, is, contains-same removed x p is, contains-filter removed packages p)
  | inr other ↦ ground (arith, other, contains-filter removed packages p)
]

-- Removing packages from a manifest leaves exactly the others, and behind it a partition of the
-- removed packages finds none of them installed.
pub partition-without :
    (m : StateManifest) (removed : List Text) (p : Text)
    → (contains (without m removed).packages p
        ≡ (contains m.packages p && not (contains removed p)))
      × (count p (partition (without m removed) removed).installed ≡ 0)
unfolding without
partition-without m removed p = (
  contains-filter removed m.packages p,
  ground
      (arith, count-partition (without m removed) removed p, contains-filter removed m.packages p),
)

count-protected_from :
    (seen requested : List Text) (p : Text)
    → count p (protected_from seen requested)
      ≡ once (contains requested p && contains required_packages p && not (contains seen p))
unfolding protected_from
count-protected_from seen [] p = refl
count-protected_from seen (x ∷ requested) p = elim (Bool-cases (x == p)) [
  | inl is ↦ ground (
    arith,
    is,
    contains-same seen x p is,
    contains-same required_packages x p is,
    count-protected_from seen requested p,
    count-protected_from (x ∷ seen) requested p,
  )
  | inr other ↦ ground (
    arith,
    other,
    count-protected_from seen requested p,
    count-protected_from (x ∷ seen) requested p,
  )
]

-- The protected packages of a request are the required ones among it, each once.
pub count-protected :
    (requested : List Text) (p : Text)
    → count p (protected requested) ≡ once (contains requested p && contains required_packages p)
unfolding protected
count-protected requested p = ground (arith, count-protected_from [] requested p)

contains-insert_text :
    (t : Text) (ts : List Text) (p : Text)
    → contains (insert_text t ts) p ≡ (t == p || contains ts p)
unfolding insert_text
contains-insert_text t [] p = refl
contains-insert_text t (u ∷ us) p = ground (arith, contains-insert_text t us p)

pub contains-sort_texts : (ts : List Text) (p : Text) → contains (sort_texts ts) p ≡ contains ts p
unfolding sort_texts
contains-sort_texts [] p = refl
contains-sort_texts (t ∷ ts) p =
    contains-insert_text t (sort_texts ts) p ∙ ground (arith, contains-sort_texts ts p)
