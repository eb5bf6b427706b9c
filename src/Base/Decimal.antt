-- ===== src/Base/Decimal.antt =====
-- `n.toString(10)`: decimal digits as code units. A decimal holds digits only and can be read back.
use ictt_sentinel.Base.{
  ℕ, zero, suc, ◌+◌, ◌-◌, ◌*◌, ◌/◌, ◌%◌, ◌≤◌, ◌<◌, ◌≡◌, refl, sym, ap, ◌∙◌, [], ◌∷◌, ◌++◌, arith,
  ltb, if◌then◌else◌, All, All-append, Bool-cases, inl, inr,
}
use ictt_sentinel.Base.Int.{ℤ, pos, negsuc}
use ictt_sentinel.Base.Text.{Text}

-- The digits of `n`, the last one appended last; the fuel bounds their number.
digits_of : ℕ → ℕ → Text
digits_of zero n = []
digits_of (suc fuel) n =
    let rest = digits_of fuel (n / 10) in
    if ltb n 10 then (48 + n) ∷ [] else rest ++ (48 + n % 10) ∷ []

unfoldable pub decimal : ℕ → Text
unfolding digits_of
decimal n = digits_of (suc n) n

unfoldable pub decimal_ℤ : ℤ → Text
unfolding decimal
decimal_ℤ (pos n) = decimal n
decimal_ℤ (negsuc n) = 45 ∷ decimal (suc n)

-- The number that a string of digits stands for.
value_from : ℕ → Text → ℕ
value_from acc [] = acc
value_from acc (d ∷ ds) = value_from (acc * 10 + (d - 48)) ds

value_from-snoc :
    (acc : ℕ) (ds : Text) (d : ℕ)
    → value_from acc (ds ++ d ∷ []) ≡ value_from acc ds * 10 + (d - 48)
unfolding value_from
value_from-snoc acc [] d = refl
value_from-snoc acc (e ∷ ds) d = value_from-snoc (acc * 10 + (e - 48)) ds d

-- The fuel of `decimal` is enough: the digits give the number back.
value-digits_of : (fuel n : ℕ) → n < fuel → value_from 0 (digits_of fuel n) ≡ n
unfolding digits_of value_from
value-digits_of zero n h = elim h [ ]
value-digits_of (suc fuel) n h = elim (Bool-cases (ltb n 10)) [
  | inl e ↦ rw e (omega arith)
  | inr e ↦ rw e (
      rw (value_from-snoc 0 (digits_of fuel (n / 10)) (48 + n % 10))
        (rw (value-digits_of fuel (n / 10) (ground arith)) (omega arith)))
]

pub decimal_inj : (m n : ℕ) → decimal m ≡ decimal n → m ≡ n
unfolding decimal
decimal_inj m n h =
    sym (value-digits_of (suc m) m (omega arith))
    ∙ ap (value_from 0) h
    ∙ value-digits_of (suc n) n (omega arith)

abbrev pub IsDigit : ℕ → Type 0
IsDigit d = (48 ≤ d) × (d < 58)

digits_of-digits : (fuel n : ℕ) → All IsDigit (digits_of fuel n)
unfolding digits_of
digits_of-digits zero n = tt
digits_of-digits (suc fuel) n = elim (Bool-cases (ltb n 10)) [
  | inl e ↦ rw e ((omega arith, ground arith), tt)
  | inr e ↦ rw e (
      All-append IsDigit (digits_of fuel (n / 10)) _ (digits_of-digits fuel (n / 10))
        ((omega arith, omega arith), tt))
]

pub decimal-digits : (n : ℕ) → All IsDigit (decimal n)
unfolding decimal
decimal-digits n = digits_of-digits (suc n) n
