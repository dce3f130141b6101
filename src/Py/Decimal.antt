-- ===== src/Py/Decimal.antt =====
-- `str(n)` of a natural number and `int(t)` of its digits.
use mathlib.Core.List.{foldl, foldl-append}
use ai_infra_demo.Base.{
  ℕ, zero, suc, ◌+◌, ◌-◌, ◌*◌, ◌/◌, ◌%◌, ◌<◌, ◌≡◌, refl, true, false, [], ◌∷◌, ◌++◌, arith, ltb,
  Bool-cases, inl, inr,
}
use ai_infra_demo.Py.Text.{Text}

-- The digits of n, for a fuel above n.
unfoldable pub digits : ℕ → ℕ → Text
digits zero n = []
digits (suc fuel) n = elim (ltb n 10) [
  | true ↦ (48 + n) ∷ []
  | false ↦ digits fuel (n / 10) ++ (48 + n % 10) ∷ []
]

unfoldable pub decimal : ℕ → Text
unfolding digits
decimal n = digits (suc n) n

abbrev shift_in : ℕ → ℕ → ℕ
shift_in n c = n * 10 + (c - 48)

-- The number that a text of digits stands for.
unfoldable pub of_digits : Text → ℕ
of_digits t = foldl shift_in 0 t

of_digits-digits : (fuel n : ℕ) → n < fuel → of_digits (digits fuel n) ≡ n
unfolding of_digits digits
of_digits-digits zero n h = absurd (omega arith)
of_digits-digits (suc fuel) n h = elim (Bool-cases (ltb n 10)) [
  | inl small ↦ rw (small, digits) (omega arith)
  | inr large ↦
      rw (large, digits, foldl-append)
        (omega (arith, of_digits-digits fuel (n / 10) (ground arith)))
]

-- Reading back a printed number.
pub of_digits-decimal : (n : ℕ) → of_digits (decimal n) ≡ n
unfolding decimal
of_digits-decimal n = of_digits-digits (suc n) n (omega arith)

decimal_samples : (decimal 0 ≡ 48 ∷ []) × (decimal 2047 ≡ 50 ∷ 48 ∷ 52 ∷ 55 ∷ [])
unfolding decimal
decimal_samples = (refl, refl)
