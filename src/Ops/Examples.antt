-- ===== src/Ops/Examples.antt =====
-- Pins of which one has a younger revision.
use mix.Base.{some, true, ◌≡◌, ◌≤◌, text}
use mix.Ops.Update.{Pin, Pins, of, LockedInput, forward, Decision, decide, is_current}
use mix.Ops.Update.Forward.{settled, decide-settled, forward-forward}

abbrev have : Pins LockedInput
have = record {
  home_manager = record { rev = text "a"; nar_hash = text "sha256-a"; last_modified = 10 };
  nixpkgs = record { rev = text "b"; nar_hash = text "sha256-b"; last_modified = 20 };
}

abbrev newest : Pins LockedInput
newest = record {
  home_manager = record { rev = text "c"; nar_hash = text "sha256-c"; last_modified = 11 };
  nixpkgs = record { rev = text "d"; nar_hash = text "sha256-d"; last_modified = 19 };
}

decide-settled_example :
    (d : Decision) × (decide have newest ≡ some d)
    × ((pin : Pin) → of d.pins pin ≡ settled (of have pin) (of newest pin))
    × ((pin : Pin) → (of have pin).last_modified ≤ (of d.pins pin).last_modified)
    × (is_current d ≡ true → d.pins ≡ have)
decide-settled_example = decide-settled have newest

forward-forward_example :
    (forward (forward have newest) newest ≡ forward have newest)
    × (20 ≤ (of (forward have newest) Pin.nixpkgs).last_modified)
    × (19 ≤ (of (forward have newest) Pin.nixpkgs).last_modified)
forward-forward_example = forward-forward have newest Pin.nixpkgs
