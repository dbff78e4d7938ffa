-- ===== src/Declared/State.antt =====
-- crates/core/src/declared/state.rs: the list of installed packages. The hash sets of the loops are
-- lists, since only membership is read. Reading and writing JSON are not modelled.
use mix.Base.{
  ℕ, List, [], ◌∷◌, Bool, true, false, not, ◌&&◌, if◌then◌else◌, ◌==◌, nat_eq, text_eq, contains,
  filter, ltb, Text, text,
}

abbrev pub required_packages : List Text
required_packages = text "git" ∷ []

pub record StateManifest : Type 0 where
  pub version : ℕ
  pub packages : List Text

pub record PackagePartition : Type 0 where
  pub installed : List Text
  pub missing : List Text

abbrev pub seed : StateManifest
seed = record { version = 1; packages = required_packages }

-- The order of `String`: byte by byte.
unfoldable pub text_leb : Text → Text → Bool
text_leb [] b = true
text_leb (x ∷ a) [] = false
text_leb (x ∷ a) (y ∷ b) = let rest = text_leb a b in if ltb x y then true else x == y && rest

-- `sort_unstable`: equal texts are the same, so any sort gives this list.
unfoldable pub insert_text : Text → List Text → List Text
insert_text t [] = t ∷ []
insert_text t (u ∷ us) =
    let rest = insert_text t us in if text_leb t u then t ∷ u ∷ us else u ∷ rest

unfoldable pub sort_texts : List Text → List Text
sort_texts [] = []
sort_texts (t ∷ ts) = insert_text t (sort_texts ts)

-- `dedup`: of equal neighbours, the first stays.
unfoldable pub dedup : List Text → List Text
dedup [] = []
dedup (t ∷ []) = t ∷ []
dedup (t ∷ u ∷ us) = let rest = dedup (u ∷ us) in if t == u then rest else t ∷ rest

unfoldable pub sorted : StateManifest → StateManifest
sorted m = record m { packages = dedup (sort_texts m.packages) }

unfoldable pub protected_from : List Text → List Text → List Text
protected_from seen [] = []
protected_from seen (name ∷ requested) =
    let skipped = protected_from seen requested in
    let kept = protected_from (name ∷ seen) requested in
    if contains required_packages name && not (contains seen name) then name ∷ kept else skipped

unfoldable pub protected : List Text → List Text
protected requested = protected_from [] requested

unfoldable pub without : StateManifest → List Text → StateManifest
without m removed = record m { packages = filter (λ name. not (contains removed name)) m.packages }

abbrev pub grown : List Text → Text → PackagePartition → PackagePartition
grown packages name p =
    if contains packages name
    then record p { installed = name ∷ p.installed }
    else record p { missing = name ∷ p.missing }

-- The loop of `partition`, from what was seen.
unfoldable pub partition_from : List Text → List Text → List Text → PackagePartition
partition_from packages seen [] = record { installed = []; missing = [] }
partition_from packages seen (name ∷ requested) =
    let skipped = partition_from packages seen requested in
    let kept = partition_from packages (name ∷ seen) requested in
    if contains seen name then skipped else grown packages name kept

unfoldable pub partition : StateManifest → List Text → PackagePartition
partition m requested = partition_from m.packages [] requested
