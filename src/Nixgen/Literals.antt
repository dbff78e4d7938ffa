-- ===== src/Nixgen/Literals.antt =====
-- `StrWriter` of crates/nixgen/src/print.rs with its literals: a dollar at the end of one is held back
-- until it is known whether the next begins with a brace.
use mix.Base.{
  ℕ, List, [], ◌∷◌, ◌++◌, append_assoc, append-nil, Option, none, some, Bool, true, false, ◌&&◌,
  if◌then◌else◌, ◌≡◌, refl, sym, ap, ◌∙◌, arith, inl, inr, ◌==◌, nat_eq, contains, Text, Bool-cases,
}
use mix.Nixgen.Write.{quote, backslash, dollar, opens, escape, write_escaped}
use mix.Nixgen.Read.{Parsed, string}
use mix.Nixgen.RoundTrip.{literal, string-write_escaped}

pub record StrWriter : Type 0 where
  pub out : Text
  pub pending_dollar : Bool

-- `strip_suffix('$')`.
abbrev pub strip_dollar : Text → Option Text
strip_dollar [] = none
strip_dollar (c ∷ []) = if c == dollar then some [] else none
strip_dollar (c ∷ d ∷ rest) = elim (strip_dollar (d ∷ rest)) [
  | none ↦ none
  | some body ↦ some (c ∷ body)
]

-- The dollar that was held back, ahead of a text.
abbrev pub flushed : Bool → Text → Text
flushed false t = []
flushed true t = if opens t then backslash ∷ dollar ∷ [] else dollar ∷ []

abbrev pub body_of : Text → Text
body_of t = elim (strip_dollar t) [ none ↦ t | some body ↦ body ]

abbrev pub ends_dollar : Text → Bool
ends_dollar t = elim (strip_dollar t) [ none ↦ false | some body ↦ true ]

unfoldable pub lit : StrWriter → Text → StrWriter
unfolding write_escaped
lit w [] = w
lit w (c ∷ t) = record {
  out = w.out ++ flushed w.pending_dollar (c ∷ t) ++ write_escaped (body_of (c ∷ t));
  pending_dollar = ends_dollar (c ∷ t);
}

unfoldable pub lits : StrWriter → List Text → StrWriter
unfolding lit
lits w [] = w
lits w (t ∷ texts) = lits (lit w t) texts

abbrev pub at_first : StrWriter
at_first = record { out = []; pending_dollar = false }

abbrev pub last_dollar : Bool → Text
last_dollar pending = if pending then dollar ∷ [] else []

-- `Writer::string` on literals.
unfoldable pub write_string : List Text → Text
unfolding lits
write_string texts =
    let w = lits at_first texts in quote ∷ (w.out ++ last_dollar w.pending_dollar) ++ quote ∷ []

abbrev pub concat : List Text → Text
concat [] = []
concat (t ∷ texts) = t ++ concat texts

strip_dollar-body : (t : Text) → t ≡ body_of t ++ (if ends_dollar t then dollar ∷ [] else [])
strip_dollar-body [] = refl
strip_dollar-body (c ∷ []) = ground arith
strip_dollar-body (c ∷ d ∷ rest) = ground (arith, strip_dollar-body (d ∷ rest))

opens-body : (t : Text) → opens (body_of t) ≡ opens t
opens-body [] = refl
opens-body (c ∷ []) = ground arith
opens-body (c ∷ d ∷ rest) = ground arith

ends-body : (t : Text) → ends_dollar t ≡ false → body_of t ≡ t
ends-body t h = ground (arith, h)

write_escaped-append :
    (x y : Text)
    → (ends_dollar x && opens y) ≡ false
    → write_escaped (x ++ y) ≡ write_escaped x ++ write_escaped y
unfolding write_escaped escape
write_escaped-append [] y h = refl
write_escaped-append (b ∷ []) y h = ground (arith, h)
write_escaped-append (b ∷ c ∷ x) y h =
    let rest = write_escaped-append (c ∷ x) y (ground (arith, h)) in
    ap (λ later. escape b (c ∷ x) ++ later) rest
    ∙ sym (append_assoc (escape b (c ∷ x)) (write_escaped (c ∷ x)) (write_escaped y))

-- What the writer holds of the texts so far.
record Holds (w : StrWriter) (s : Text) : Type 0 where
  written : w.out ≡ write_escaped (body_of s)
  held : w.pending_dollar ≡ ends_dollar s

strip_dollar-append :
    (s : Text) (c : ℕ) (t : Text)
    → (ends_dollar (s ++ c ∷ t) ≡ ends_dollar (c ∷ t))
      × (body_of (s ++ c ∷ t) ≡ s ++ body_of (c ∷ t))
strip_dollar-append [] c t = (refl, refl)
strip_dollar-append (b ∷ []) c t = ground arith
strip_dollar-append (b ∷ d ∷ s) c t = ground (arith, strip_dollar-append (d ∷ s) c t)

escape-dollar : (t : Text) → escape dollar (body_of t) ≡ flushed true t
unfolding escape
escape-dollar t = ground (arith, opens-body t)

-- A literal is written as what it adds to those before it.
written-append :
    (s t : Text)
    → write_escaped (s ++ body_of t)
      ≡ write_escaped (body_of s) ++ flushed (ends_dollar s) t ++ write_escaped (body_of t)
unfolding write_escaped
written-append s t = elim (Bool-cases (ends_dollar s)) [
  | inr plain ↦
      write_escaped-append s (body_of t) (ground (arith, plain))
      ∙ sym (
          ap (λ r. write_escaped (body_of s) ++ flushed r t ++ write_escaped (body_of t)) plain
          ∙ ap (λ x. x ++ write_escaped (body_of t)) (append-nil (write_escaped (body_of s)))
          ∙ ap (λ x. write_escaped x ++ write_escaped (body_of t)) (ends-body s plain))
  | inl ends ↦
      let b = body_of t in
      let whole : s ≡ body_of s ++ dollar ∷ [] =
        strip_dollar-body s ∙ ap (λ r. body_of s ++ (if r then dollar ∷ [] else [])) ends in
      ap (λ x. write_escaped (x ++ b)) whole
      ∙ ap write_escaped (append_assoc (body_of s) (dollar ∷ []) b)
      ∙ write_escaped-append (body_of s) (dollar ∷ b) (ground arith)
      ∙ ap (λ r. write_escaped (body_of s) ++ (r ++ write_escaped b)) (escape-dollar t)
      ∙ sym (append_assoc (write_escaped (body_of s)) (flushed true t) (write_escaped b))
      ∙ ap (λ r. write_escaped (body_of s) ++ flushed r t ++ write_escaped b) (sym ends)
]

lit-Holds : (w : StrWriter) (s t : Text) → Holds w s → Holds (lit w t) (s ++ t)
unfolding lit
lit-Holds w s [] h = rw (append-nil s) h
lit-Holds w s (c ∷ t) h =
    let (ends, body) = strip_dollar-append s c t in
    record {
      written =
          ap (λ o. o ++ flushed w.pending_dollar (c ∷ t) ++ write_escaped (body_of (c ∷ t)))
            h.written
          ∙ ap
              (λ p.
                write_escaped (body_of s) ++ flushed p (c ∷ t) ++ write_escaped (body_of (c ∷ t)))
              h.held
          ∙ sym (written-append s (c ∷ t))
          ∙ ap write_escaped (sym body);
      held = sym ends;
    }

lits-Holds :
    (w : StrWriter) (s : Text) (texts : List Text)
    → Holds w s
    → Holds (lits w texts) (s ++ concat texts)
unfolding lits
lits-Holds w s [] h = rw (append-nil s) h
lits-Holds w s (t ∷ texts) h =
    rw (← append_assoc s t (concat texts)) (lits-Holds (lit w t) (s ++ t) texts (lit-Holds w s t h))

flushed-nil : (b : Bool) → flushed b [] ≡ last_dollar b
flushed-nil true = refl
flushed-nil false = refl

-- Literals are written as their concatenation is.
write_string-concat :
    (texts : List Text) → write_string texts ≡ quote ∷ write_escaped (concat texts) ++ quote ∷ []
unfolding write_string write_escaped escape
write_string-concat texts =
    let s = concat texts in
    let h = lits-Holds at_first [] texts (record { written = refl; held = refl }) in
    ap (λ body. quote ∷ body ++ quote ∷ [])
      (ap (λ o. o ++ last_dollar (lits at_first texts).pending_dollar) h.written
        ∙ ap (λ p. write_escaped (body_of s) ++ last_dollar p) h.held
        ∙ ap (λ l. write_escaped (body_of s) ++ l) (sym (flushed-nil (ends_dollar s)))
        ∙ sym (append-nil (write_escaped (body_of s) ++ flushed (ends_dollar s) []))
        ∙ sym (written-append s [])
        ∙ ap write_escaped (append-nil s))

module _ {E : Type 0} (expr : Text → Parsed E) where
  -- Literals without a null byte that are written one after the other into a string are read back as
  -- one literal, their concatenation: no dollar at the end of one opens an interpolation with the
  -- next.
  pub string-write_string :
      (texts : List Text) (tail : Text)
      → contains (concat texts) 0 ≡ false
      → string expr (write_string texts ++ tail) ≡ Parsed.ok (literal (concat texts)) tail
  string-write_string texts tail h =
      ap (λ written. string expr (written ++ tail)) (write_string-concat texts)
      ∙ ap (λ body. string expr (quote ∷ body))
          (append_assoc (write_escaped (concat texts)) (quote ∷ []) tail)
      ∙ string-write_escaped expr (concat texts) tail h
