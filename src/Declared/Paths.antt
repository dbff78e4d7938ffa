-- ===== src/Declared/Paths.antt =====
-- crates/core/src/declared/paths.rs: the places that mix knows. A path is its bytes; `join` is
-- `PathBuf::push` of the standard library on Unix.
use Prim.Native.Nat.{◌/◌, ◌%◌}
use mix.Base.{
  ℕ, zero, suc, ◌+◌, [], ◌∷◌, ◌++◌, Bool, false, not, if◌then◌else◌, ◌==◌, ltb, nat_eq, Text, text,
}

abbrev pub nix_store : Text
nix_store = text "/nix/store"

abbrev pub systemd_unit_dir : Text
systemd_unit_dir = text "/etc/systemd/system"

abbrev pub default_profile_nix_env : Text
default_profile_nix_env = text "/nix/var/nix/profiles/default/bin/nix-env"

abbrev pub nix_daemon_service_src : Text
nix_daemon_service_src = text "/nix/var/nix/profiles/default/lib/systemd/system/nix-daemon.service"

abbrev pub nix_daemon_socket_src : Text
nix_daemon_socket_src = text "/nix/var/nix/profiles/default/lib/systemd/system/nix-daemon.socket"

abbrev pub mix_state_dir_name : Text
mix_state_dir_name = text ".local/state/mix"

abbrev pub nix_profiles_dir_name : Text
nix_profiles_dir_name = text ".local/state/nix/profiles"

abbrev pub home_manager_profile_name : Text
home_manager_profile_name = text "home-manager"

abbrev is_absolute : Text → Bool
is_absolute [] = false
is_absolute (c ∷ _) = c == b'/'

-- Whether the last byte is there and is no separator.
abbrev needs_separator : Text → Bool
needs_separator [] = false
needs_separator (c ∷ []) = not (c == b'/')
needs_separator (c ∷ d ∷ rest) = needs_separator (d ∷ rest)

unfoldable pub join : Text → Text → Text
join base rel =
    if is_absolute rel
    then rel
    else if needs_separator base
    then base ++ b'/' ∷ rel
    else base ++ rel

unfoldable pub mix_state_dir : Text → Text
unfolding join
mix_state_dir home = join home mix_state_dir_name

unfoldable pub repository_dir : Text → Text
unfolding mix_state_dir
repository_dir home = join (mix_state_dir home) (text ".git")

unfoldable pub nix_profiles_dir : Text → Text
unfolding join
nix_profiles_dir home = join home nix_profiles_dir_name

unfoldable pub profile_path : Text → Text
unfolding nix_profiles_dir
profile_path home = join (nix_profiles_dir home) home_manager_profile_name

-- The decimal digits of a number that is below the fuel.
abbrev pub digits : ℕ → ℕ → Text
digits zero n = []
digits (suc fuel) n =
    let more = digits fuel (n / 10) in
    if ltb n 10 then (b'0' + n) ∷ [] else more ++ (b'0' + n % 10) ∷ []

unfoldable pub decimal : ℕ → Text
decimal n = digits (suc n) n

unfoldable pub generation_link : Text → ℕ → Text
unfolding nix_profiles_dir decimal
generation_link home generation =
    join (nix_profiles_dir home)
      (home_manager_profile_name ++ text "-" ++ decimal generation ++ text "-link")
