-- ===== src/Ops/Update.antt =====
-- The pins of the inputs (crates/nixgen/src/inputs.rs), `forward` of crates/core/src/declared/pins.rs,
-- and what an update decides of them (crates/core/src/ops/update.rs). A revision and a hash are their
-- texts.
pub mod Forward
use mix.Base.{
  ℕ, List, [], ◌∷◌, Option, none, some, Bool, true, false, if◌then◌else◌, ◌==◌, text_eq, ltb, find,
  map, filter, Text, Eq, derived, ℕ_discrete,
}

pub data Pin : Type 0 where
  home_manager nixpkgs : Pin

unfoldable pub Pin-discrete : Discrete Pin
Pin-discrete = hlevel

instance abbrev pub pin_eq : Eq Pin
pin_eq = derived Pin-discrete

pub record Pins (T : Type 0) : Type 0 where
  pub home_manager : T
  pub nixpkgs : T

abbrev pub of : {T : Type 0} → Pins T → Pin → T
of pins Pin.home_manager = pins.home_manager
of pins Pin.nixpkgs = pins.nixpkgs

pub record LockedInput : Type 0 where
  pub rev : Text
  pub nar_hash : Text
  pub last_modified : ℕ

abbrev pub newer : LockedInput → LockedInput → LockedInput
newer from to = if ltb from.last_modified to.last_modified then to else from

unfoldable pub forward : Pins LockedInput → Pins LockedInput → Pins LockedInput
forward pins to = record {
  home_manager = newer pins.home_manager to.home_manager;
  nixpkgs = newer pins.nixpkgs to.nixpkgs;
}

pub data Outcome : Type 0 where
  updated current kept : Outcome

pub record InputUpdate : Type 0 where
  pub pin : Pin
  pub outcome : Outcome
  pub from : LockedInput
  pub to : LockedInput

pub record Decision : Type 0 where
  pub inputs : List InputUpdate
  pub pins : Pins LockedInput

unfoldable pub step : LockedInput → LockedInput → Outcome × LockedInput
step from newest =
    if newest.rev == from.rev
    then (Outcome.current, from)
    else if ltb from.last_modified newest.last_modified
    then (Outcome.updated, newest)
    else (Outcome.kept, from)

-- The pins of `INPUTS`, in its order.
abbrev pub inputs : List Pin
inputs = Pin.home_manager ∷ Pin.nixpkgs ∷ []

unfoldable pub update_of : Pins LockedInput → Pins LockedInput → Pin → InputUpdate
unfolding step
update_of have newest pin =
    let (outcome, to) = step (of have pin) (of newest pin) in
    record { pin = pin; outcome = outcome; from = of have pin; to = to }

-- The `expect` of a pin without an input is `none`.
unfoldable pub decide : Pins LockedInput → Pins LockedInput → Option Decision
unfolding update_of
decide have newest =
    let updates = map (update_of have newest) inputs in
    let to = λ (pin : Pin). find (λ (update : InputUpdate). update.pin == pin) updates in
    elim (to Pin.home_manager) [
      | none ↦ none
      | some first ↦ elim (to Pin.nixpkgs) [
        | none ↦ none
        | some second ↦ some (record {
          inputs = updates;
          pins = record { home_manager = first.to; nixpkgs = second.to };
        })
      ]
    ]

abbrev pub is_updated : Outcome → Bool
is_updated Outcome.updated = true
is_updated _ = false

unfoldable pub moved : Decision → List InputUpdate
moved d = filter (λ (update : InputUpdate). is_updated update.outcome) d.inputs

abbrev pub no_updates : List InputUpdate → Bool
no_updates [] = true
no_updates _ = false

unfoldable pub is_current : Decision → Bool
unfolding moved
is_current d = no_updates (moved d)
