-- ===== src/Nixgen/Keys.antt =====
-- An attribute name that crates/nixgen writes is read back.
use mix.Base.{
  ℕ, [], ◌∷◌, ◌++◌, append_assoc, Bool, true, false, not, ◌≡◌, refl, ap, ◌∙◌, arith, inl, inr, ◌==◌,
  nat_eq, text_eq, contains, all, Text, Bool-cases,
}
use mix.Nixgen.Write.{
  quote, write_escaped, write_key, is_identifier, begins_identifier, continues_identifier,
}
use mix.Nixgen.Read.{
  Parsed, skip_trivia, skip_from, spanned, identifier_split, identifier, normalize_parts, key,
  key_at, key_of_parts, key_of_name, bare_key, quoted_key, named, ◌>>=◌,
}
use mix.Nixgen.RoundTrip.{literal, string-write_escaped}

-- What follows an identifier does not go on with it.
abbrev pub stops : Text → Bool
stops [] = true
stops (c ∷ _) = not (continues_identifier c)

spanned-append :
    (name tail : Text)
    → all continues_identifier name ≡ true
    → stops tail ≡ true
    → spanned (name ++ tail) ≡ (name, tail)
spanned-append [] [] h s = refl
spanned-append [] (c ∷ tail) h s = ground (arith, s)
spanned-append (b ∷ name) tail h s =
    ground (arith, h, spanned-append name tail (ground (arith, h)) s)

-- The first byte of an identifier is not skipped, and is no quote.
begins-solid :
    (b : ℕ) (rest : Text)
    → begins_identifier b ≡ true
    → (skip_trivia (b ∷ rest) ≡ b ∷ rest) × ((b == quote) ≡ false)
unfolding skip_trivia skip_from
begins-solid b rest h = (ground (arith, h), ground (arith, h))

begins-is_identifier :
    (b : ℕ) (name : Text) → is_identifier (b ∷ name) ≡ true → begins_identifier b ≡ true
unfolding is_identifier
begins-is_identifier b name h = ground (arith, h)

is_identifier-nil : is_identifier [] ≡ false
unfolding is_identifier
is_identifier-nil = refl

identifier-append :
    (b : ℕ) (name tail : Text)
    → is_identifier (b ∷ name) ≡ true
    → stops tail ≡ true
    → identifier (b ∷ (name ++ tail)) ≡ Parsed.ok (b ∷ name) tail
unfolding identifier identifier_split is_identifier
identifier-append b name tail h s =
    let begins : begins_identifier b ≡ true = ground (arith, h) in
    let parts : identifier_split (b ∷ (name ++ tail)) ≡ (b ∷ name, tail) =
      ground (arith, h, spanned-append name tail (ground (arith, h)) s) in
    ap (λ source. named (identifier_split source)) (begins-solid b (name ++ tail) begins).0
    ∙ ap named parts

module _ {E : Type 0} (expr : Text → Parsed E) (normalize : E → E) where
  key_of_parts-literal :
      (t tail : Text)
      → contains t 0 ≡ false
      → key_of_parts expr normalize (normalize_parts expr normalize [] (literal t)) tail
        ≡ Parsed.ok t tail
  unfolding normalize_parts
  key_of_parts-literal [] tail h = refl
  key_of_parts-literal (b ∷ t) tail h = ground (arith, h)

  bare_key-append :
      (b : ℕ) (name tail : Text)
      → is_identifier (b ∷ name) ≡ true
      → contains (b ∷ name) 0 ≡ false
      → stops tail ≡ true
      → bare_key expr normalize (b ∷ (name ++ tail)) ≡ Parsed.ok (b ∷ name) tail
  unfolding bare_key
  bare_key-append b name tail h whole s =
      ap (λ p. p >>= λ name left. key_of_name expr normalize name left)
        (identifier-append b name tail h s)
      ∙ ground (arith, h, whole)

  key_at-bare :
      (name tail : Text)
      → is_identifier name ≡ true
      → contains name 0 ≡ false
      → stops tail ≡ true
      → key_at expr normalize (skip_trivia (name ++ tail)) ≡ Parsed.ok name tail
  unfolding key_at
  key_at-bare [] tail h whole s = absurd (cc (h, is_identifier-nil))
  key_at-bare (b ∷ name) tail h whole s =
      let (stays, unquoted) = begins-solid b (name ++ tail) (begins-is_identifier b name h) in
      ap (key_at expr normalize) stays ∙ rw unquoted (bare_key-append b name tail h whole s)

  key_at-quoted :
      (name tail : Text)
      → contains name 0 ≡ false
      → quoted_key expr normalize (quote ∷ ((write_escaped name ++ quote ∷ []) ++ tail))
        ≡ Parsed.ok name tail
  unfolding quoted_key
  key_at-quoted name tail whole =
      ap (λ body. quoted_key expr normalize (quote ∷ body))
        (append_assoc (write_escaped name) (quote ∷ []) tail)
      ∙ ap
          (λ p. p >>= λ parts left.
            key_of_parts expr normalize (normalize_parts expr normalize [] parts) left)
          (string-write_escaped expr name tail whole)
      ∙ key_of_parts-literal name tail whole

  -- An attribute name without a null byte is read back as it is written, bare or quoted, if what
  -- follows does not go on with an identifier.
  pub key-write_key :
      (name tail : Text)
      → contains name 0 ≡ false
      → stops tail ≡ true
      → key expr normalize (write_key name ++ tail) ≡ Parsed.ok name tail
  unfolding key key_at write_key skip_trivia skip_from
  key-write_key name tail whole s = elim (Bool-cases (is_identifier name)) [
    | inl bare ↦ rw bare (key_at-bare name tail bare whole s)
    | inr quoted ↦ rw quoted (key_at-quoted name tail whole)
  ]
