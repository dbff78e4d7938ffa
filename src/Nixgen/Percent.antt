-- ===== src/Nixgen/Percent.antt =====
-- `percent_encode` of crates/nixgen/src/installable.rs, and the `percent_decode` that
-- crates/nixgen/fuzz/src/installable.rs reads it with.
use Prim.Native.Nat.{◌*◌, ◌/◌, ◌%◌}
use mix.Base.{
  ℕ, zero, suc, ◌+◌, ◌-◌, ◌<◌, [], ◌∷◌, Bool, true, false, ◌&&◌, ◌||◌, if◌then◌else◌, Option, none,
  some, ◌==◌, nat_eq, leb, ltb, all, not, length, Text, text, ◌≡◌, refl, ap, ◌∙◌, sym, arith, inl,
  inr, Bool-cases, Option-cases,
}
use mix.Nixgen.Write.{is_ascii_alphanumeric}

abbrev pub percent : ℕ
percent = b'%'

abbrev pub is_unreserved : ℕ → Bool
is_unreserved b = is_ascii_alphanumeric b || b == b'-' || b == b'.' || b == b'_' || b == b'~'

abbrev pub is_path_byte : ℕ → Bool
is_path_byte b = is_unreserved b || b == b'/'

abbrev hex_digits : Text
hex_digits = text "0123456789ABCDEF"

-- Nothing is out of range: a digit is less than 16.
abbrev digit_at : Text → ℕ → ℕ
digit_at [] n = 0
digit_at (d ∷ digits) zero = d
digit_at (d ∷ digits) (suc n) = digit_at digits n

unfoldable pub hex_digit : ℕ → ℕ
hex_digit n = digit_at hex_digits n

-- `String::push` of `byte as char`: the character U+0000 to U+00FF in UTF-8, two bytes from 128 on.
unfoldable pub push_char : ℕ → Text → Text
push_char byte rest =
    if ltb byte 128 then byte ∷ rest else (192 + byte / 64) ∷ (128 + byte % 64) ∷ rest

-- `byte >> 4` is a quotient and `byte & 0x0f` a remainder.
unfoldable pub percent_encode : (ℕ → Bool) → Text → Text
unfolding hex_digit push_char
percent_encode keep [] = []
percent_encode keep (byte ∷ bytes) =
    let rest = percent_encode keep bytes in
    if keep byte
    then push_char byte rest
    else percent ∷ hex_digit (byte / 16) ∷ hex_digit (byte % 16) ∷ rest

pub data Decoded : Type 0 where
  ok : Text → Decoded
  err : Text → Decoded

abbrev push : ℕ → Decoded → Decoded
push b (ok bytes) = Decoded.ok (b ∷ bytes)
push b (err message) = Decoded.err message

unfoldable digit_value : ℕ → Option ℕ
digit_value c =
    if leb 48 c && leb c 57
    then some (c - 48)
    else if leb 65 c && leb c 70
    then some (c - 55)
    else if leb 97 c && leb c 102
    then some (c - 87)
    else none

-- `u8::from_str_radix` on two bytes in base 16: the first may be a sign.
unfoldable hex_value : ℕ → ℕ → Option ℕ
unfolding digit_value
hex_value high low =
    if high == b'+' then digit_value low else both (digit_value high) (digit_value low)
  where
    both : Option ℕ → Option ℕ → Option ℕ
    both (some h) (some l) = some (h * 16 + l)
    both _ _ = none

abbrev push_value : Option ℕ → Decoded → Decoded
push_value none rest = Decoded.err (text "a bad escape")
push_value (some b) rest = push b rest

unfoldable pub percent_decode : Text → Decoded
unfolding hex_value
percent_decode [] = Decoded.ok []
percent_decode (b ∷ []) =
    if b == percent then Decoded.err (text "a truncated escape") else push b (Decoded.ok [])
percent_decode (b ∷ c ∷ []) =
    let next = percent_decode (c ∷ []) in
    if b == percent then Decoded.err (text "a truncated escape") else push b next
percent_decode (b ∷ high ∷ low ∷ rest) =
    let next = percent_decode (high ∷ low ∷ rest) in
    let behind = percent_decode rest in
    if b == percent then push_value (hex_value high low) behind else push b next

-- A digit of the value `i`, which is no sign.
abbrev has_value : ℕ → ℕ → Bool
has_value d i = is (digit_value d) && not (d == b'+')
  where
    is : Option ℕ → Bool
    is none = false
    is (some v) = v == i

abbrev have_values : Text → ℕ → Bool
have_values [] i = true
have_values (d ∷ digits) i = has_value d i && have_values digits (suc i)

digit_at-has_value :
    (digits : Text) (i n : ℕ)
    → have_values digits i ≡ true
    → n < length digits
    → has_value (digit_at digits n) (i + n) ≡ true
digit_at-has_value [] i n h small = absurd (omega (arith, small))
digit_at-has_value (d ∷ digits) i zero h small =
    let start : i + 0 ≡ i = omega arith in rw start (ground (arith, h))
digit_at-has_value (d ∷ digits) i (suc n) h small =
    let next : i + suc n ≡ suc i + n = omega arith in
    rw next (digit_at-has_value digits (suc i) n (ground (arith, h)) (omega (arith, small)))

has_value-digit :
    (d n : ℕ) → has_value d n ≡ true → (digit_value d ≡ some n) × ((d == b'+') ≡ false)
has_value-digit d n h = elim (Option-cases (digit_value d)) [
  | inl none' ↦ absurd (ground (arith, h, none'))
  | inr (v, value) ↦ ground (arith, h, value)
]

digit_value-hex_digit :
    (n : ℕ) → n < 16 → (digit_value (hex_digit n) ≡ some n) × ((hex_digit n == b'+') ≡ false)
unfolding digit_value hex_digit
digit_value-hex_digit n small =
    let same : 0 + n ≡ n = omega arith in
    has_value-digit (hex_digit n) n
      (ap (has_value (hex_digit n)) (sym same) ∙ digit_at-has_value hex_digits 0 n refl small)

hex_value-hex_digit :
    (h l : ℕ) → h < 16 → l < 16 → hex_value (hex_digit h) (hex_digit l) ≡ some (h * 16 + l)
unfolding hex_value
hex_value-hex_digit h l small small' =
    ground (arith, digit_value-hex_digit h small, digit_value-hex_digit l small')

percent_decode-plain :
    (b : ℕ) (rest : Text)
    → (b == percent) ≡ false
    → percent_decode (b ∷ rest) ≡ push b (percent_decode rest)
unfolding percent_decode
percent_decode-plain b [] h = rw h refl
percent_decode-plain b (c ∷ []) h = rw h refl
percent_decode-plain b (c ∷ d ∷ rest) h = rw h refl

-- A byte that is kept is not the percent sign.
kept-plain :
    (keep : ℕ → Bool) (b : ℕ) → keep percent ≡ false → keep b ≡ true → (b == percent) ≡ false
kept-plain keep b escapes kept = elim (Bool-cases (b == percent)) [
  | inr plain ↦ plain
  | inl is ↦
      let same : b ≡ percent = (nat_eq.same_iff b percent).0 is in absurd (cc (same, escapes, kept))
]

-- What `is_path_byte` and `is_unreserved` keep is of ASCII.
pub is_path_byte-ascii : (b : ℕ) → is_path_byte b ≡ true → b < 128
is_path_byte-ascii b kept = ground (arith, kept)

pub is_unreserved-ascii : (b : ℕ) → is_unreserved b ≡ true → b < 128
is_unreserved-ascii b kept = ground (arith, kept)

-- Bytes, numbers below 256, that are percent-encoded are read back, byte for byte, whichever bytes
-- are kept, if all of them are of ASCII and the percent sign is not among them.
pub percent_decode-percent_encode :
    (keep : ℕ → Bool) (bytes : Text)
    → keep percent ≡ false
    → ((b : ℕ) → keep b ≡ true → b < 128)
    → all (λ b. ltb b 256) bytes ≡ true
    → percent_decode (percent_encode keep bytes) ≡ Decoded.ok bytes
unfolding percent_encode percent_decode push_char
percent_decode-percent_encode keep [] escapes ascii small = refl
percent_decode-percent_encode keep (b ∷ bytes) escapes ascii small =
    let fits : b < 256 = ground (arith, small) in
    let ih = percent_decode-percent_encode keep bytes escapes ascii (ground (arith, small)) in
    elim (Bool-cases (keep b)) [
      | inl kept ↦
          let one : ltb b 128 ≡ true = let low = ascii b kept in ground (arith, low) in
          rw (kept, one)
            (percent_decode-plain b (percent_encode keep bytes) (kept-plain keep b escapes kept)
              ∙ ap (push b) ih)
      | inr other ↦
          let value = hex_value-hex_digit (b / 16) (b % 16) (omega (arith, fits)) (omega arith) in
          let whole : b / 16 * 16 + b % 16 ≡ b = omega arith in
          rw (other, value, whole) (ap (push b) ih)
    ]
