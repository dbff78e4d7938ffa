-- ===== src/Ops/Update/Forward.antt =====
-- An update only moves forward.
use mix.Base.{◌≤◌, [], ◌∷◌, some, true, if◌then◌else◌, ◌≡◌, refl, arith, ◌==◌, text_eq, nat_eq}
use mix.Ops.Update.{
  Pin, Pins, of, LockedInput, newer, forward, Decision, step, update_of, decide, moved, is_current,
  Pin-discrete, pin_eq,
}

-- Where an update leaves an input: moved on to the newest revision if that one differs and is
-- younger, and where it was if not.
abbrev pub settled : LockedInput → LockedInput → LockedInput
settled from newest = if newest.rev == from.rev then from else newer from newest

step-settled : (from newest : LockedInput) → (step from newest).1 ≡ settled from newest
unfolding step
step-settled from newest = ground arith

-- An update decides on every pin, and never panics: each input moves on to the newest revision if
-- that one differs and is younger and stays where it was if not, no input moves back in time, and a
-- decision that is current leaves the pins as they were.
pub decide-settled :
    (have newest : Pins LockedInput)
    → (d : Decision) × (decide have newest ≡ some d)
      × ((pin : Pin) → of d.pins pin ≡ settled (of have pin) (of newest pin))
      × ((pin : Pin) → (of have pin).last_modified ≤ (of d.pins pin).last_modified)
      × (is_current d ≡ true → d.pins ≡ have)
unfolding decide update_of step is_current moved Pin-discrete
decide-settled have newest =
    let d : Decision = record {
      inputs = update_of have newest Pin.home_manager ∷ update_of have newest Pin.nixpkgs ∷ [];
      pins = record {
        home_manager = (step have.home_manager newest.home_manager).1;
        nixpkgs = (step have.nixpkgs newest.nixpkgs).1;
      };
    } in
    (d, refl, each, later, λ h. ground (arith, h))
  where
    each :
        (pin : Pin)
        → of
            (record {
              home_manager = (step have.home_manager newest.home_manager).1;
              nixpkgs = (step have.nixpkgs newest.nixpkgs).1;
            })
            pin
          ≡ settled (of have pin) (of newest pin)
    each Pin.home_manager = step-settled have.home_manager newest.home_manager
    each Pin.nixpkgs = step-settled have.nixpkgs newest.nixpkgs

    later :
        (pin : Pin)
        → (of have pin).last_modified
          ≤ (of {T = LockedInput}
              (record {
                home_manager = (step have.home_manager newest.home_manager).1;
                nixpkgs = (step have.nixpkgs newest.nixpkgs).1;
              })
              pin).last_modified
    later Pin.home_manager = ground arith
    later Pin.nixpkgs = ground arith

-- Moving pins forward is idempotent, and leaves each pin at least as young as it was and as the pin
-- that it may move to.
pub forward-forward :
    (pins to : Pins LockedInput) (pin : Pin)
    → (forward (forward pins to) to ≡ forward pins to)
      × ((of pins pin).last_modified ≤ (of (forward pins to) pin).last_modified)
      × ((of to pin).last_modified ≤ (of (forward pins to) pin).last_modified)
unfolding forward
forward-forward pins to Pin.home_manager = ground arith
forward-forward pins to Pin.nixpkgs = ground arith
