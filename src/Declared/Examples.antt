-- ===== src/Declared/Examples.antt =====
-- A request of packages, one of them twice, against a manifest with two.
use mix.Base.{List, [], ◌∷◌, true, false, ◌≡◌, text_eq, contains, count, Text, text}
use mix.Declared.State.{StateManifest, partition, without, protected, sorted}
use mix.Declared.Packages.{count-partition, partition-without, count-protected}
use mix.Declared.Order.{StrictlyAscending, sorted-StrictlyAscending}

abbrev manifest : StateManifest
manifest = record { version = 1; packages = text "ripgrep" ∷ text "git" ∷ text "git" ∷ [] }

abbrev requested : List Text
requested = text "fd" ∷ text "git" ∷ text "fd" ∷ []

count-partition_example :
    (count (text "fd") (partition manifest requested).installed ≡ 0)
    × (count (text "fd") (partition manifest requested).missing ≡ 1)
count-partition_example = count-partition manifest requested (text "fd")

partition-without_example :
    (contains (without manifest requested).packages (text "git") ≡ false)
    × (count (text "git") (partition (without manifest requested) requested).installed ≡ 0)
partition-without_example = partition-without manifest requested (text "git")

count-protected_example : count (text "git") (protected requested) ≡ 1
count-protected_example = count-protected requested (text "git")

sorted-StrictlyAscending_example :
    StrictlyAscending (sorted manifest).packages
    × (contains (sorted manifest).packages (text "git") ≡ true)
sorted-StrictlyAscending_example = sorted-StrictlyAscending manifest (text "git")
