-- ===== src/Py/Digits.antt =====
-- The characters of printed numbers, and `str(n)` of an int.
use ai_infra_demo.Base.{
  ℕ, zero, suc, ◌+◌, ◌/◌, ◌%◌, ◌<◌, ◌≡◌, Bool, true, ◌&&◌, [], ◌∷◌, ◌++◌, All, ltb, leb, Bool-cases,
  inl, inr, arith,
}
use ai_infra_demo.Base.Int.{ℤ, pos, negsuc}
use ai_infra_demo.Py.Text.{Text}
use ai_infra_demo.Py.Decimal.{digits, decimal}

abbrev pub is_digit : ℕ → Bool
is_digit c = leb 48 c && leb c 57

abbrev pub AllDigits : Text → Type 0
AllDigits = All (λ c. is_digit c ≡ true)

AllDigits-append : (s t : Text) → AllDigits s → AllDigits t → AllDigits (s ++ t)
AllDigits-append [] t d e = e
AllDigits-append (c ∷ s) t d e = (d.0, AllDigits-append s t d.1 e)

digit-is_digit : (n : ℕ) → n < 10 → is_digit (48 + n) ≡ true
digit-is_digit n h = ground arith

pub digits-AllDigits : (fuel n : ℕ) → AllDigits (digits fuel n)
unfolding digits
digits-AllDigits zero n = tt
digits-AllDigits (suc fuel) n = elim (Bool-cases (ltb n 10)) [
  | inl small ↦ rw (small, digits) (digit-is_digit n (ground arith), tt)
  | inr large ↦
      rw (large, digits)
        (AllDigits-append (digits fuel (n / 10)) ((48 + n % 10) ∷ [])
          (digits-AllDigits fuel (n / 10)) (digit-is_digit (n % 10) (omega arith), tt))
]

abbrev pub print_int : ℤ → Text
print_int (pos n) = decimal n
print_int (negsuc n) = 45 ∷ decimal (suc n)
