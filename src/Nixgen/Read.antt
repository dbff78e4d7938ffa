-- ===== src/Nixgen/Read.antt =====
-- `Parser::string`, `Parser::key` and what they call, of crates/nixgen/src/parse.rs. A parser is the
-- source behind its position. An error carries what is left there in place of the offset. An
-- interpolated expression is read by `expr`, a parameter.
use mix.Base.{
  ℕ, zero, suc, List, [], ◌∷◌, ◌++◌, Bool, true, false, not, ◌||◌, if◌then◌else◌, ◌==◌, nat_eq,
  contains, length, Text, text,
}
use mix.Nixgen.Write.{
  quote, backslash, dollar, brace, line_feed, carriage_return, begins_identifier,
  continues_identifier, is_identifier,
}

pub record ParseError : Type 0 where
  pub left : Text
  pub message : Text

pub data Parsed (A : Type 0) : Type 0 where
  ok : A → (rest : Text) → Parsed A
  err : ParseError → Parsed A
  out_of_fuel : Parsed A

infixl 5 ◌>>=◌
abbrev pub ◌>>=◌ : {A B : Type 0} → Parsed A → (A → Text → Parsed B) → Parsed B
ok a rest >>= f = f a rest
err e >>= f = Parsed.err e
out_of_fuel >>= f = Parsed.out_of_fuel

abbrev error : {A : Type 0} → Text → Text → Parsed A
error left message = Parsed.err (record { left = left; message = message })

pub data StrPart (E : Type 0) : Type 0 where
  lit : Text → StrPart E
  interp : E → StrPart E

abbrev is_space : ℕ → Bool
is_space b = b == 32 || b == 9 || b == line_feed || b == carriage_return

abbrev ends_line : ℕ → Bool
ends_line b = b == line_feed || b == carriage_return

-- Within a comment, or outside of one.
unfoldable pub skip_from : Bool → Text → Text
skip_from commented [] = []
skip_from true (b ∷ rest) =
    let more = skip_from true rest in
    let outside = skip_from false rest in if ends_line b then outside else more
skip_from false (b ∷ rest) =
    let spaces = skip_from false rest in
    let comment = skip_from true rest in
    if is_space b then spaces else if b == b'#' then comment else b ∷ rest

unfoldable pub skip_trivia : Text → Text
unfolding skip_from
skip_trivia rest = skip_from false rest

unfoldable pub unescape : ℕ → ℕ
unescape c =
    if c == b'n'
    then line_feed
    else if c == b'r'
    then carriage_return
    else if c == b't'
    then 9
    else c

-- What one arm of the loop of `string` reads.
pub data Piece : Type 0 where
  closes : (rest : Text) → Piece
  pushes : Text → (rest : Text) → Piece
  interpolates : (rest : Text) → Piece
  fails : Text → Text → Piece

unfoldable pub escape_piece : Text → Text → Piece
unfolding unescape
escape_piece before [] = Piece.fails [] (text "unterminated escape")
escape_piece before (c ∷ rest) = Piece.pushes (before ++ unescape c ∷ []) rest

unfoldable pub dollar_piece : Text → Piece
unfolding escape_piece
dollar_piece [] = Piece.pushes (dollar ∷ []) []
dollar_piece (d ∷ rest) =
    if d == brace
    then Piece.interpolates rest
    else if d == dollar
    then Piece.pushes (dollar ∷ dollar ∷ []) rest
    else if d == backslash
    then escape_piece (dollar ∷ []) rest
    else Piece.pushes (dollar ∷ []) (d ∷ rest)

abbrev skip_line_feed : Text → Text
skip_line_feed [] = []
skip_line_feed (c ∷ rest) = if c == line_feed then rest else c ∷ rest

unfoldable pub piece : Text → Piece
unfolding escape_piece dollar_piece
piece [] = Piece.fails [] (text "unterminated string")
piece (c ∷ rest) =
    if c == quote
    then Piece.closes rest
    else if c == backslash
    then escape_piece [] rest
    else if c == dollar
    then dollar_piece rest
    else if c == carriage_return
    then Piece.pushes (line_feed ∷ []) (skip_line_feed rest)
    else Piece.pushes (c ∷ []) rest

unfoldable pub expect : ℕ → Text → Parsed (Unit {0})
unfolding skip_trivia
expect token source = expect_at (skip_trivia source)
  where
    expect_at : Text → Parsed (Unit {0})
    expect_at [] = error [] (text "unexpected token")
    expect_at (c ∷ rest) =
        if c == token then Parsed.ok tt rest else error (c ∷ rest) (text "unexpected token")

module _ {E : Type 0} (expr : Text → Parsed E) where
  abbrev pub with_lit : List (StrPart E) → Text → Text → Parsed (List (StrPart E))
  with_lit parts [] rest = Parsed.ok parts rest
  with_lit parts (c ∷ t) rest =
      if contains (c ∷ t) 0
      then error rest (text "a null byte in a string")
      else Parsed.ok (parts ++ StrPart.lit (c ∷ t) ∷ []) rest

  -- An arm of the loop, with what the loop goes on with.
  unfoldable pub string_arm :
      (List (StrPart E) → Text → Text → Parsed (List (StrPart E)))
      → List (StrPart E)
      → Text
      → Piece
      → Parsed (List (StrPart E))
  unfolding expect
  string_arm loop parts t (Piece.closes rest) = with_lit parts t rest
  string_arm loop parts t (Piece.pushes more rest) = loop parts (t ++ more) rest
  string_arm loop parts t (Piece.interpolates rest) = with_lit parts t rest >>= λ parts' rest'.
      expr rest' >>= λ e rest''.
      expect b'}' rest'' >>= λ _ left. loop (parts' ++ StrPart.interp e ∷ []) [] left
  string_arm loop parts t (Piece.fails left message) = error left message

  unfoldable pub string_loop : ℕ → List (StrPart E) → Text → Text → Parsed (List (StrPart E))
  unfolding piece string_arm
  string_loop zero parts t source = Parsed.out_of_fuel
  string_loop (suc fuel) parts t source = string_arm (string_loop fuel) parts t (piece source)

  unfoldable pub string : Text → Parsed (List (StrPart E))
  unfolding expect string_loop
  string source = expect quote source >>= λ _ rest. string_loop (suc (length rest)) [] [] rest

abbrev pub spanned : Text → Text × Text
spanned [] = ([], [])
spanned (b ∷ rest) =
    let (name, left) = spanned rest in
    if continues_identifier b then (b ∷ name, left) else ([], b ∷ rest)

-- What `identifier_end` parts: an identifier, which may be empty, and what is behind it.
unfoldable pub identifier_split : Text → Text × Text
identifier_split [] = ([], [])
identifier_split (b ∷ rest) =
    let (name, left) = spanned rest in
    if begins_identifier b then (b ∷ name, left) else ([], b ∷ rest)

abbrev pub named : Text × Text → Parsed Text
named ([], left) = error left (text "expected an identifier")
named (b ∷ name, left) = Parsed.ok (b ∷ name) left

unfoldable pub identifier : Text → Parsed Text
unfolding skip_trivia identifier_split
identifier source = named (identifier_split (skip_trivia source))

-- A literal joins the one before it.
abbrev pub push_lit : {E : Type 0} → List (StrPart E) → Text → List (StrPart E)
push_lit [] t = StrPart.lit t ∷ []
push_lit (StrPart.lit before ∷ []) t = StrPart.lit (before ++ t) ∷ []
push_lit (part ∷ []) t = part ∷ StrPart.lit t ∷ []
push_lit (part ∷ next ∷ parts) t = part ∷ push_lit (next ∷ parts) t

module _ {E : Type 0} (expr : Text → Parsed E) (normalize : E → E) where
  unfoldable pub normalize_parts : List (StrPart E) → List (StrPart E) → List (StrPart E)
  normalize_parts out [] = out
  normalize_parts out (StrPart.lit [] ∷ parts) = normalize_parts out parts
  normalize_parts out (StrPart.lit (b ∷ t) ∷ parts) = normalize_parts (push_lit out (b ∷ t)) parts
  normalize_parts out (StrPart.interp e ∷ parts) =
      normalize_parts (out ++ StrPart.interp (normalize e) ∷ []) parts

  abbrev pub key_of_parts : List (StrPart E) → Text → Parsed Text
  key_of_parts [] left = Parsed.ok [] left
  key_of_parts (StrPart.lit t ∷ []) left =
      if contains t 0 then error left (text "a null byte in a key") else Parsed.ok t left
  key_of_parts _ left = error left (text "an interpolated key")

  abbrev pub key_of_name : Text → Text → Parsed Text
  key_of_name name left =
      if not (is_identifier name)
      then error left (text "a keyword as a key")
      else if contains name 0
      then error left (text "a null byte in a key")
      else Parsed.ok name left

  unfoldable pub quoted_key : Text → Parsed Text
  unfolding string normalize_parts
  quoted_key source =
      string expr source >>= λ parts left. key_of_parts (normalize_parts [] parts) left

  unfoldable pub bare_key : Text → Parsed Text
  unfolding identifier is_identifier
  bare_key source = identifier source >>= λ name left. key_of_name name left

  unfoldable pub key_at : Text → Parsed Text
  unfolding quoted_key bare_key
  key_at [] = bare_key []
  key_at (c ∷ rest) = if c == quote then quoted_key (c ∷ rest) else bare_key (c ∷ rest)

  -- `Key`, whose flag `bare` is of its text.
  unfoldable pub key : Text → Parsed Text
  unfolding skip_trivia key_at
  key source = key_at (skip_trivia source)
