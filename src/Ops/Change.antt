-- ===== src/Ops/Change.antt =====
-- crates/core/src/ops/change/mod.rs: the package list that a user has, and what an install or a
-- removal makes of it. Reading JSON is of a library: `parse` is a parameter.
pub mod Valid
pub mod Lists
pub mod Examples
use mix.Base.{
  ℕ, List, [], ◌∷◌, ◌++◌, Option, none, some, Bool, true, false, not, if◌then◌else◌, ◌==◌, nat_eq,
  text_eq, ltb, find, contains, Text, Eq, derived, ℕ_discrete,
}
use mix.Declared.State.{
  StateManifest, required_packages, seed, sorted, protected, without, partition,
}
use mix.Nixgen.Write.{is_identifier}

abbrev pub state_version : ℕ
state_version = 1

pub data Invalid : Type 0 where
  unreadable : Text → Invalid
  newer : ℕ → Invalid
  unknown_version : ℕ → Invalid
  bad_package : Text → Invalid
  missing : Text → Invalid

pub data Validated : Type 0 where
  ok : StateManifest → Validated
  err : Invalid → Validated

pub data Parsed : Type 0 where
  ok : StateManifest → Parsed
  err : Text → Parsed

abbrev pub lists_required : StateManifest → Option Text → Validated
lists_required m none = Validated.ok m
lists_required m (some required) = Validated.err (Invalid.missing required)

abbrev pub lists_names : StateManifest → Option Text → Validated
lists_names m none =
    lists_required m (find (λ required. not (contains m.packages required)) required_packages)
lists_names m (some name) = Validated.err (Invalid.bad_package name)

-- `validate`, behind `parse`.
unfoldable pub check : StateManifest → Validated
check m =
    if ltb state_version m.version
    then Validated.err (Invalid.newer m.version)
    else if not (m.version == state_version)
    then Validated.err (Invalid.unknown_version m.version)
    else lists_names m (find (λ name. not (is_identifier name)) m.packages)

abbrev pub checked : Parsed → Validated
checked (Parsed.ok m) = check m
checked (Parsed.err message) = Validated.err (Invalid.unreadable message)

pub data Source : Type 0 where
  file generation fresh : Source

pub data Settled : Type 0 where
  current : StateManifest → Source → Settled
  newer : ℕ → Settled

unfoldable pub StateManifest-discrete : Discrete StateManifest
StateManifest-discrete = hlevel ℕ_discrete

instance abbrev pub manifest_eq : Eq StateManifest
manifest_eq = derived StateManifest-discrete

abbrev pub validated_option : Validated → Option StateManifest
validated_option (Validated.ok m) = some m
validated_option (Validated.err _) = none

-- The match of `settle` on the file, and on the generation where it is valid.
abbrev pub settled : Option Validated → Option StateManifest → Settled
settled (some (Validated.err (Invalid.newer version))) _ = Settled.newer version
settled (some (Validated.ok found)) (some kept) =
    if not (found == kept)
    then Settled.current kept Source.generation
    else Settled.current found Source.file
settled (some (Validated.ok found)) none = Settled.current found Source.file
settled _ (some kept) = Settled.current kept Source.generation
settled _ none = Settled.current seed Source.fresh

module _ (parse : Text → Parsed) where
  unfoldable pub validate : Text → Validated
  unfolding check
  validate raw = checked (parse raw)

  abbrev pub validated : Option Text → Option Validated
  validated none = none
  validated (some raw) = some (validate raw)

  abbrev pub and_valid : Option Text → Option StateManifest
  and_valid none = none
  and_valid (some raw) = validated_option (validate raw)

  unfoldable pub settle : Option Text → Option Text → Settled
  unfolding validate
  settle from_file from_generation = settled (validated from_file) (and_valid from_generation)

pub record Change : Type 0 where
  pub changed : List Text
  pub skipped : List Text
  pub manifest : StateManifest
  pub source : Source

-- `Result<Change, Refusal>`: a list that a newer mix wrote, or packages that mix needs.
pub data Changed : Type 0 where
  ok : Change → Changed
  is_protected : List Text → Changed
  newer_list : ℕ → Changed

unfoldable pub install : List Text → Settled → Changed
install packages (Settled.newer version) = Changed.newer_list version
install packages (Settled.current m source) =
    let p = partition m packages in
    Changed.ok (record {
      changed = p.missing;
      skipped = p.installed;
      manifest = sorted (record m { packages = m.packages ++ p.missing });
      source = source;
    })

abbrev pub remove_current : List Text → Settled → Changed
remove_current packages (Settled.newer version) = Changed.newer_list version
remove_current packages (Settled.current m source) =
    let p = partition m packages in
    Changed.ok (record {
      changed = p.installed;
      skipped = p.missing;
      manifest = sorted (without m p.installed);
      source = source;
    })

abbrev pub unless_protected : List Text → Changed → Changed
unless_protected [] change = change
unless_protected (name ∷ names) _ = Changed.is_protected (name ∷ names)

unfoldable pub remove : List Text → Settled → Changed
remove packages list = unless_protected (protected packages) (remove_current packages list)
