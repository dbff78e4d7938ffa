-- ===== src/Ops/Change/Lists.antt =====
-- An install and a removal leave the package list valid.
use mix.Base.{
  List, [], ◌∷◌, ◌++◌, ◌⊎◌, Bool, true, false, not, ◌&&◌, ◌||◌, ◌==◌, nat_eq, text_eq, all,
  contains, contains-append, contains-count, count, Text, ◌≡◌, refl, arith, sym, ◌∙◌, ap, inl, inr,
  Bool-cases,
}
use mix.Declared.State.{StateManifest, required_packages, sorted, protected, without, partition}
use mix.Declared.Packages.{count-partition, partition-without, count-protected, once}
use mix.Declared.Order.{sorted-StrictlyAscending}
use mix.Nixgen.Write.{is_identifier}
use mix.Ops.Change.Valid.{IsValid}
use mix.Ops.Change.{
  state_version, Source, Settled, Change, Changed, install, remove, remove_current,
  unless_protected, manifest_eq,
}

contains-once : (xs : List Text) (p : Text) (b : Bool) → count p xs ≡ once b → contains xs p ≡ b
contains-once xs p true h = contains-count xs p ∙ ground (arith, h)
contains-once xs p false h = contains-count xs p ∙ ground (arith, h)

sorted-IsValid :
    (m : StateManifest)
    → m.version ≡ state_version
    → ((p : Text) → contains m.packages p ≡ true → is_identifier p ≡ true)
    → ((p : Text) → contains required_packages p ≡ true → contains m.packages p ≡ true)
    → IsValid (sorted m)
unfolding sorted
sorted-IsValid m version names required = record {
  this_version = version;
  names = λ p c. names p (sym (sorted-StrictlyAscending m p).1 ∙ c);
  required = λ p c. (sorted-StrictlyAscending m p).1 ∙ required p c;
}

all-contains :
    (xs : List Text) (p : Text)
    → all is_identifier xs ≡ true
    → contains xs p ≡ true
    → is_identifier p ≡ true
all-contains [] p h c = absurd (cc)
all-contains (x ∷ xs) p h c = elim (Bool-cases (x == p)) [
  | inl is ↦ rw (← (text_eq.same_iff x p).0 is) (ground (arith, h))
  | inr other ↦ all-contains xs p (ground (arith, h)) (ground (arith, c, other))
]

-- An install of names that are identifiers into a valid list gives a valid list, of what was listed
-- and what was asked for.
pub install_lem :
    (packages : List Text) (m : StateManifest) (source : Source)
    → IsValid m
    → all is_identifier packages ≡ true
    → (c : Change) × (install packages (Settled.current m source) ≡ Changed.ok c)
      × IsValid c.manifest
      × ((p : Text)
          → contains c.manifest.packages p ≡ (contains m.packages p || contains packages p))
unfolding install
install_lem packages m source valid names =
    let parts = partition m packages in
    let grown : StateManifest = record m { packages = m.packages ++ parts.missing } in
    let listed : (p : Text)
        → contains grown.packages p ≡ (contains m.packages p || contains packages p) =
      λ p.
        contains-append m.packages parts.missing p
        ∙ ground (
          arith,
          contains-once parts.missing p (contains packages p && not (contains m.packages p))
              (count-partition m packages p).1,
        ) in
    (
      record {
        changed = parts.missing;
        skipped = parts.installed;
        manifest = sorted grown;
        source = source;
      },
      refl,
      sorted-IsValid grown valid.this_version
          (λ p c. elim (Bool-cases (contains m.packages p)) [
            | inl there ↦ valid.names p there
            | inr new ↦ all-contains packages p names (ground (arith, c, listed p, new))
          ])
          (λ p c. listed p ∙ ground (arith, valid.required p c)),
      λ p. (sorted-StrictlyAscending grown p).1 ∙ listed p,
    )

version_kept : (m : StateManifest) (removed : List Text) → (without m removed).version ≡ m.version
unfolding without
version_kept m removed = refl

required_first :
    (packages : List Text) (x : Text) (names : List Text)
    → protected packages ≡ x ∷ names
    → (contains packages x ≡ true) × (contains required_packages x ≡ true)
required_first packages x names e =
    ground (arith, count-protected packages x, ap (count x) e, text_eq.same_iff x x)

-- What a removal without required packages gives.
removed_lem :
    (packages : List Text) (m : StateManifest) (source : Source)
    → IsValid m
    → ((p : Text) → contains required_packages p ≡ true → contains packages p ≡ false)
    → (c : Change) × (remove_current packages (Settled.current m source) ≡ Changed.ok c)
      × IsValid c.manifest
      × ((p : Text)
          → contains c.manifest.packages p ≡ (contains m.packages p && not (contains packages p)))
removed_lem packages m source valid spared =
    let parts = partition m packages in
    let left = without m parts.installed in
    let listed : (p : Text)
        → contains left.packages p ≡ (contains m.packages p && not (contains packages p)) =
      λ p.
        (partition-without m parts.installed p).0
        ∙ ground (
          arith,
          contains-once parts.installed p (contains packages p && contains m.packages p)
              (count-partition m packages p).0,
        ) in
    (
      record {
        changed = parts.installed;
        skipped = parts.missing;
        manifest = sorted left;
        source = source;
      },
      refl,
      sorted-IsValid left (version_kept m parts.installed ∙ valid.this_version)
          (λ p c. valid.names p (ground (arith, c, listed p)))
          (λ p c. listed p ∙ ground (arith, valid.required p c, spared p c)),
      λ p. (sorted-StrictlyAscending left p).1 ∙ listed p,
    )

-- A removal from a valid list is refused if it names a package that mix needs; or else it gives a
-- valid list, of what was listed and not to be removed.
pub remove_lem :
    (packages : List Text) (m : StateManifest) (source : Source)
    → IsValid m
    → ((remove packages (Settled.current m source) ≡ Changed.is_protected (protected packages))
        × ((p : Text) × (contains packages p ≡ true) × (contains required_packages p ≡ true)))
      ⊎ ((c : Change) × (remove packages (Settled.current m source) ≡ Changed.ok c)
          × IsValid c.manifest
          × ((p : Text)
              → contains c.manifest.packages p
                ≡ (contains m.packages p && not (contains packages p))))
unfolding remove
remove_lem packages m source valid = by_protected (protected packages) refl
  where
    by_protected :
        (names : List Text)
        → protected packages ≡ names
        → ((unless_protected names (remove_current packages (Settled.current m source))
              ≡ Changed.is_protected names)
            × ((p : Text) × (contains packages p ≡ true) × (contains required_packages p ≡ true)))
          ⊎ ((c : Change) × (unless_protected names
                  (remove_current packages (Settled.current m source))
                ≡ Changed.ok c)
              × IsValid c.manifest
              × ((p : Text)
                  → contains c.manifest.packages p
                    ≡ (contains m.packages p && not (contains packages p))))
    by_protected [] e = inr (
        removed_lem packages m source valid
          (λ p c. ground (arith, c, count-protected packages p, ap (count p) e)))
    by_protected (x ∷ names) e =
        let (asked, needed) = required_first packages x names e in inl (refl, (x, asked, needed))
