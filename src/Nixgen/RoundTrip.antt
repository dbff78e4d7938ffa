-- ===== src/Nixgen/RoundTrip.antt =====
-- A string that crates/nixgen writes is read back.
use mix.Base.{
  ℕ, zero, suc, ◌+◌, ◌≤◌, ◌<◌, List, [], ◌∷◌, ◌++◌, append_assoc, append-nil, length-append, false,
  ◌||◌, ◌≡◌, refl, sym, ap, ◌∙◌, arith, inl, inr, ◌==◌, nat_eq, contains, length, Text, Bool-cases,
}
use mix.Nixgen.Write.{quote, backslash, dollar, brace, carriage_return, escape, write_escaped}
use mix.Nixgen.Read.{
  Parsed, StrPart, Piece, piece, escape_piece, dollar_piece, unescape, string_arm, string_loop,
  with_lit, expect, skip_trivia, skip_from, string,
}

abbrev Pieced : ℕ → Text → Text → Text → Text → Type 0
Pieced b rest tail more left =
    (piece (write_escaped (b ∷ rest) ++ quote ∷ tail)
      ≡ Piece.pushes more (write_escaped left ++ quote ∷ tail))
    × (more ++ left ≡ b ∷ rest)
    × (length left ≤ length rest)

-- Behind a dollar, up to two bytes are read at once.
piece-dollar : (rest tail : Text) → (more left : Text) × Pieced dollar rest tail more left
unfolding write_escaped escape piece escape_piece dollar_piece unescape
piece-dollar [] tail = (dollar ∷ [], [], ground arith)
piece-dollar (d ∷ r) tail = elim (Bool-cases (d == brace)) [
  | inl is ↦ (dollar ∷ [], d ∷ r, ground (arith, is))
  | inr other ↦ elim (Bool-cases (d == dollar || d == backslash)) [
    | inl paired ↦ (dollar ∷ d ∷ [], r, ground (arith, other, paired))
    | inr single ↦ elim (Bool-cases (d == quote || d == carriage_return)) [
      | inl escaped ↦ (dollar ∷ d ∷ [], r, ground (arith, other, single, escaped))
      | inr plain ↦ (dollar ∷ [], d ∷ r, ground (arith, other, single, plain))
    ]
  ]
]

piece-write_escaped : (b : ℕ) (rest tail : Text) → (more left : Text) × Pieced b rest tail more left
unfolding write_escaped escape piece escape_piece dollar_piece unescape
piece-write_escaped b rest tail = elim (Bool-cases (b == dollar)) [
  | inr plain ↦ (b ∷ [], rest, ground (arith, plain))
  | inl is ↦ rw ((nat_eq.same_iff b dollar).0 is) (piece-dollar rest tail)
]

length-write_escaped : (s : Text) → length s ≤ length (write_escaped s)
unfolding write_escaped escape
length-write_escaped [] = omega arith
length-write_escaped (b ∷ s) = ground (arith, length-write_escaped s)

-- The parts of a string without interpolations.
abbrev pub literal : {E : Type 0} → Text → List (StrPart E)
literal [] = []
literal (b ∷ s) = StrPart.lit (b ∷ s) ∷ []

module _ {E : Type 0} (expr : Text → Parsed E) where
  -- The rest of a string, behind what has been read of it.
  string_loop-write_escaped :
      (fuel : ℕ) (t s tail : Text)
      → length s < fuel
      → string_loop expr fuel [] t (write_escaped s ++ quote ∷ tail)
        ≡ with_lit expr [] (t ++ s) tail
  unfolding string_loop string_arm piece write_escaped
  string_loop-write_escaped zero t s tail h = absurd (omega (arith, h))
  string_loop-write_escaped (suc fuel) t [] tail h =
      ap (λ t'. with_lit expr [] t' tail) (sym (append-nil t))
  string_loop-write_escaped (suc fuel) t (b ∷ s) tail h =
      let (more, left, (reads, joined, shorter)) = piece-write_escaped b s tail in
      ap (string_arm expr (string_loop expr fuel) [] t) reads
      ∙ string_loop-write_escaped fuel (t ++ more) left tail (omega (arith, h, shorter))
      ∙ ap (λ t'. with_lit expr [] t' tail) (append_assoc t more left ∙ ap (λ u. t ++ u) joined)

  with_lit-literal :
      (s tail : Text) → contains s 0 ≡ false → with_lit expr [] s tail ≡ Parsed.ok (literal s) tail
  with_lit-literal [] tail h = refl
  with_lit-literal (b ∷ s) tail h = ground (arith, h)

  -- A string without a null byte that is written between quotes is read back, whatever follows and
  -- whatever reads interpolations: its dollars and escapes open none.
  pub string-write_escaped :
      (s tail : Text)
      → contains s 0 ≡ false
      → string expr (quote ∷ write_escaped s ++ quote ∷ tail) ≡ Parsed.ok (literal s) tail
  unfolding string expect skip_trivia skip_from
  string-write_escaped s tail h =
      let body = write_escaped s ++ quote ∷ tail in
      let long : length body ≡ length (write_escaped s) + length (quote ∷ tail) =
        length-append (write_escaped s) (quote ∷ tail) in
      string_loop-write_escaped (suc (length body)) [] s tail
        (omega (arith, long, length-write_escaped s))
      ∙ with_lit-literal s tail h
