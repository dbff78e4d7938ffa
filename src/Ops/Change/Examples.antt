-- ===== src/Ops/Change/Examples.antt =====
-- A file whose list lacks a package that mix needs, and what is made of the generation's.
use mix.Base.{
  [], ◌∷◌, some, true, ◌≡◌, ◌⊎◌, ◌↔◌, refl, Text, text, text_eq, ◌==◌, nat_eq, if◌then◌else◌, not,
  ◌&&◌, ◌||◌, contains,
}
use mix.Declared.State.{StateManifest, required_packages, protected}
use mix.Nixgen.Write.{is_identifier}
use mix.Ops.Change.{
  Parsed, Validated, Source, Settled, settle, check, Change, Changed, install, remove, manifest_eq,
}
use mix.Ops.Change.Valid.{IsValid, settle-IsValid, check-iff-IsValid}
use mix.Ops.Change.Lists.{install_lem, remove_lem}

abbrev kept : StateManifest
kept = record { version = 1; packages = text "fd" ∷ text "git" ∷ [] }

-- A reader that knows two files.
abbrev reads : Text → Parsed
reads raw =
    if raw == text "good"
    then Parsed.ok kept
    else if raw == text "bare"
    then Parsed.ok (record { version = 1; packages = text "fd" ∷ [] })
    else Parsed.err (text "not JSON")

kept-IsValid : IsValid kept
unfolding settle is_identifier
kept-IsValid =
    settle-IsValid reads (some (text "bare")) (some (text "good")) kept Source.generation refl

settle-IsValid_example : IsValid kept
unfolding settle is_identifier
settle-IsValid_example =
    settle-IsValid reads (some (text "bare")) (some (text "good")) kept Source.generation refl

install_example :
    (c : Change) × (install (text "ripgrep" ∷ text "fd" ∷ []) (Settled.current kept Source.file)
      ≡ Changed.ok c)
    × IsValid c.manifest
    × ((p : Text)
        → contains c.manifest.packages p
          ≡ (contains kept.packages p || contains (text "ripgrep" ∷ text "fd" ∷ []) p))
unfolding is_identifier
install_example = install_lem (text "ripgrep" ∷ text "fd" ∷ []) kept Source.file kept-IsValid refl

remove_example :
    ((remove (text "fd" ∷ text "git" ∷ []) (Settled.current kept Source.file)
        ≡ Changed.is_protected (protected (text "fd" ∷ text "git" ∷ [])))
      × ((p : Text) × (contains (text "fd" ∷ text "git" ∷ []) p ≡ true)
          × (contains required_packages p ≡ true)))
    ⊎ ((c : Change) × (remove (text "fd" ∷ text "git" ∷ []) (Settled.current kept Source.file)
          ≡ Changed.ok c)
        × IsValid c.manifest
        × ((p : Text)
            → contains c.manifest.packages p
              ≡ (contains kept.packages p && not (contains (text "fd" ∷ text "git" ∷ []) p))))
remove_example = remove_lem (text "fd" ∷ text "git" ∷ []) kept Source.file kept-IsValid

check-iff-IsValid_example : (check kept ≡ Validated.ok kept) ↔ (IsValid kept × (kept ≡ kept))
check-iff-IsValid_example = check-iff-IsValid kept kept
