-- ===== src/Declared/Decimal.antt =====
-- `decimal` of Declared.Paths, the decimal digits that `format!` writes, is read back by `value`.
use Prim.Native.Nat.{◌*◌, ◌/◌, ◌%◌}
use mix.Base.{
  ℕ, zero, suc, ◌+◌, ◌-◌, ◌<◌, [], ◌∷◌, ◌++◌, ◌≡◌, refl, sym, ap, ◌∙◌, arith, ltb, Text, inl, inr,
  Bool-cases,
}
use mix.Declared.Paths.{digits, decimal}

abbrev value : ℕ → Text → ℕ
value acc [] = acc
value acc (c ∷ rest) = value (acc * 10 + (c - b'0')) rest

value-append : (acc : ℕ) (xs ys : Text) → value acc (xs ++ ys) ≡ value (value acc xs) ys
value-append acc [] ys = refl
value-append acc (x ∷ xs) ys = value-append (acc * 10 + (x - b'0')) xs ys

value-digits : (fuel n : ℕ) → n < fuel → value 0 (digits fuel n) ≡ n
value-digits zero n h = absurd (omega (arith, h))
value-digits (suc fuel) n h = elim (Bool-cases (ltb n 10)) [
  | inl small ↦ rw small (omega arith)
  | inr large ↦
      let big : 9 < n = ground (arith, large) in
      let ih = value-digits fuel (n / 10) (omega (arith, h, big)) in
      rw (large, value-append 0 (digits fuel (n / 10)) ((b'0' + n % 10) ∷ []), ih) (omega arith)
]

pub decimal_inj : (m n : ℕ) → decimal m ≡ decimal n → m ≡ n
unfolding decimal
decimal_inj m n e =
    sym (value-digits (suc m) m (omega arith))
    ∙ ap (value 0) e
    ∙ value-digits (suc n) n (omega arith)
