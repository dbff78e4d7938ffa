-- ===== src/Nixgen/Examples.antt =====
-- A string with a dollar before an interpolation, quotes and a backslash, and names that are written
-- and read.
use mix.Base.{true, ◌++◌, ◌≡◌, refl, [], ◌∷◌, Text, text, ℕ}
use mix.Nixgen.Write.{quote, backslash, write_escaped, escape, write_key}
use mix.Nixgen.Read.{Parsed, StrPart, string, key}
use mix.Nixgen.RoundTrip.{string-write_escaped}
use mix.Nixgen.Literals.{write_string, string-write_string}
use mix.Nixgen.Keys.{key-write_key}
use mix.Nixgen.Percent.{
  is_path_byte, percent_encode, percent_decode, Decoded, percent_decode-percent_encode, push_char,
  is_path_byte-ascii,
}

abbrev tricky : Text
tricky = text "$${HOME}" ++ quote ∷ backslash ∷ text "$"

-- Nothing is interpolated here, so the reader of expressions is never asked.
abbrev no_expr : Text → Parsed ℕ
no_expr source = Parsed.err (record { left = source; message = text "no expression" })

tricky_written :
    write_escaped tricky
    ≡ text "$" ++ backslash ∷ text "${HOME}" ++ backslash ∷ quote ∷ backslash ∷ backslash ∷ text "$"
unfolding write_escaped escape
tricky_written = refl

string-write_escaped_example :
    string no_expr (quote ∷ write_escaped tricky ++ quote ∷ text "; }")
    ≡ Parsed.ok (StrPart.lit tricky ∷ []) (text "; }")
string-write_escaped_example = string-write_escaped no_expr tricky (text "; }") refl

key-write_key_example :
    key no_expr (λ e. e) (write_key (text "nix-daemon.service") ++ text " = 1;")
    ≡ Parsed.ok (text "nix-daemon.service") (text " = 1;")
key-write_key_example =
    key-write_key no_expr (λ e. e) (text "nix-daemon.service") (text " = 1;") refl refl

string-write_string_example :
    string no_expr (write_string (text "cost: $" ∷ text "{5}" ∷ []) ++ text ";")
    ≡ Parsed.ok (StrPart.lit (text "cost: ${5}") ∷ []) (text ";")
string-write_string_example =
    string-write_string no_expr (text "cost: $" ∷ text "{5}" ∷ []) (text ";") refl

abbrev flake_dir : Text
flake_dir = text "/home/a b/100%"

flake_dir_written : percent_encode is_path_byte flake_dir ≡ text "/home/a%20b/100%25"
unfolding percent_encode push_char
flake_dir_written = refl

percent_decode-percent_encode_example :
    percent_decode (percent_encode is_path_byte flake_dir) ≡ Decoded.ok flake_dir
percent_decode-percent_encode_example =
    percent_decode-percent_encode is_path_byte flake_dir refl is_path_byte-ascii refl

-- A byte that is kept and is not of ASCII becomes two.
kept_high : percent_encode (λ _. true) (233 ∷ []) ≡ 195 ∷ 169 ∷ []
unfolding percent_encode push_char
kept_high = refl
