-- ===== src/Nixgen/Write.antt =====
-- `write_escaped` and `write_key` of crates/nixgen/src/print.rs, and the identifiers of
-- crates/nixgen/src/ident.rs. A string is its bytes: what is escaped is ASCII.
use mix.Base.{
  ℕ, List, [], ◌∷◌, ◌++◌, Bool, false, not, ◌&&◌, ◌||◌, if◌then◌else◌, ◌==◌, nat_eq, text_eq, leb,
  all, contains, Text, text,
}

abbrev pub quote : ℕ
quote = 34

abbrev pub backslash : ℕ
backslash = 92

abbrev pub dollar : ℕ
dollar = 36

abbrev pub brace : ℕ
brace = 123

abbrev pub line_feed : ℕ
line_feed = 10

abbrev pub carriage_return : ℕ
carriage_return = 13

abbrev pub opens : Text → Bool
opens [] = false
opens (c ∷ _) = c == brace

-- What is written for a byte, by the bytes behind it.
unfoldable pub escape : ℕ → Text → Text
escape b rest =
    if b == quote
    then backslash ∷ quote ∷ []
    else if b == backslash
    then backslash ∷ backslash ∷ []
    else if b == carriage_return
    then backslash ∷ b'r' ∷ []
    else if b == dollar && opens rest
    then backslash ∷ dollar ∷ []
    else b ∷ []

unfoldable pub write_escaped : Text → Text
unfolding escape
write_escaped [] = []
write_escaped (b ∷ rest) = escape b rest ++ write_escaped rest

abbrev between : ℕ → ℕ → ℕ → Bool
between low high b = leb low b && leb b high

abbrev pub is_ascii_alphabetic : ℕ → Bool
is_ascii_alphabetic b = between 65 90 b || between 97 122 b

abbrev pub is_ascii_alphanumeric : ℕ → Bool
is_ascii_alphanumeric b = is_ascii_alphabetic b || between 48 57 b

abbrev pub begins_identifier : ℕ → Bool
begins_identifier b = is_ascii_alphabetic b || b == b'_'

abbrev pub continues_identifier : ℕ → Bool
continues_identifier b = is_ascii_alphanumeric b || b == b'_' || b == 39 || b == b'-'

abbrev pub reserved_words : List Text
reserved_words =
    text "assert"
    ∷ text "else"
    ∷ text "if"
    ∷ text "in"
    ∷ text "inherit"
    ∷ text "let"
    ∷ text "or"
    ∷ text "rec"
    ∷ text "then"
    ∷ text "with"
    ∷ []

unfoldable pub is_identifier : Text → Bool
is_identifier [] = false
is_identifier (first ∷ rest) =
    begins_identifier first
    && all continues_identifier rest
    && not (contains reserved_words (first ∷ rest))

-- `Key`, whose flag `bare` is of its text.
unfoldable pub write_key : Text → Text
unfolding is_identifier write_escaped
write_key key = if is_identifier key then key else quote ∷ write_escaped key ++ quote ∷ []
