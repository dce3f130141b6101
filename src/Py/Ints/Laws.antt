-- ===== src/Py/Ints/Laws.antt =====
-- Reading back a printed int.
use mathlib.Core.List.{reverse, reverse_aux, reverse-reverse, foldl}
use mathlib.Core.Path.{subst}
use mathlib.Core.Option
use ai_infra_demo.Base.{
  ℕ, zero, suc, ◌+◌, ◌-◌, ◌*◌, ◌/◌, ◌%◌, ◌<◌, ◌≡◌, refl, sym, ap, ◌∙◌, Bool, Bool-cases, true,
  false, some, [], ◌∷◌, ◌++◌, inl, inr, All, ltb, ◌==◌, arith,
}
use ai_infra_demo.Base.Int.{ℤ, pos, negsuc}
use ai_infra_demo.Py.Text.{Text, strip, is_space, drop_while, drop_last_while}
use ai_infra_demo.Py.Digits.{is_digit, AllDigits, digits-AllDigits, print_int}
use ai_infra_demo.Py.Decimal.{digits, decimal, of_digits, of_digits-decimal}
use ai_infra_demo.Py.Ints.{read_digits, read_signed, read_int, negated}

All-reverse_aux : (P : ℕ → Type 0) (s r : Text) → All P s → All P r → All P (reverse_aux s r)
All-reverse_aux P [] r hs hr = hr
All-reverse_aux P (c ∷ s) r hs hr = All-reverse_aux P s (c ∷ r) hs.1 (hs.0, hr)

drop_while_none : (p : ℕ → Bool) (t : Text) → All (λ c. p c ≡ false) t → drop_while p t ≡ t
unfolding drop_while
drop_while_none p [] h = refl
drop_while_none p (c ∷ t) h = rw h.0 refl

-- A text without white space is its own `strip()`.
strip_none : (t : Text) → All (λ c. is_space c ≡ false) t → strip t ≡ t
unfolding strip drop_last_while
strip_none t h = rw (drop_while_none is_space t h) (
    ap reverse (drop_while_none is_space (reverse t) (All-reverse_aux _ t [] h tt))
    ∙ reverse-reverse t)

digit-is_space : (c : ℕ) → is_digit c ≡ true → is_space c ≡ false
digit-is_space c h = ground arith

digits_no_space : (t : Text) → AllDigits t → All (λ c. is_space c ≡ false) t
digits_no_space [] h = tt
digits_no_space (c ∷ t) h = (digit-is_space c h.0, digits_no_space t h.1)

read_digits-AllDigits :
    (n : ℕ) (t : Text)
    → AllDigits t
    → read_digits true n t ≡ some (foldl (λ m c. m * 10 + (c - 48)) n t)
unfolding read_digits
read_digits-AllDigits n [] h = refl
read_digits-AllDigits n (c ∷ t) h =
    rw (h.0, read_digits) (read_digits-AllDigits (n * 10 + (c - 48)) t h.1)

decimal_digits : (n : ℕ) → AllDigits (decimal n)
unfolding decimal
decimal_digits n = digits-AllDigits (suc n) n

digits_some : (fuel n : ℕ) → n < fuel → (c : ℕ) × (t : Text) × (digits fuel n ≡ c ∷ t)
unfolding digits
digits_some zero n h = absurd (omega arith)
digits_some (suc fuel) n h = elim (Bool-cases (ltb n 10)) [
  | inl small ↦ rw (small, digits) (48 + n, [], refl)
  | inr large ↦
      let (c, t, e) = digits_some fuel (n / 10) (ground arith) in
      rw (large, digits, e) (c, t ++ (48 + n % 10) ∷ [], refl)
]

-- A printed number begins with a digit and goes on with digits.
pub decimal_cons :
    (n : ℕ) → (c : ℕ) × (t : Text) × (decimal n ≡ c ∷ t) × (is_digit c ≡ true) × AllDigits t
unfolding decimal
decimal_cons n =
    let (c, t, e) = digits_some (suc n) n (omega arith) in
    (c, t, e, (subst AllDigits e (decimal_digits n)).0, (subst AllDigits e (decimal_digits n)).1)

read_digits-cons :
    (c : ℕ) (t : Text)
    → is_digit c ≡ true
    → AllDigits t
    → read_digits false 0 (c ∷ t) ≡ some (of_digits (c ∷ t))
unfolding read_digits of_digits
read_digits-cons c t d ds = rw (d, read_digits) (read_digits-AllDigits (0 * 10 + (c - 48)) t ds)

digit-sign : (c : ℕ) → is_digit c ≡ true → ((c == 45) ≡ false) × ((c == 43) ≡ false)
digit-sign c h = ground arith

read_digits-decimal : (n : ℕ) → read_digits false 0 (decimal n) ≡ some n
read_digits-decimal n =
    let (c, t, e, d, ds) = decimal_cons n in
    ap (read_digits false 0) e
    ∙ read_digits-cons c t d ds
    ∙ ap (λ x. some (of_digits x)) (sym e)
    ∙ ap some (of_digits-decimal n)

read_unsigned :
    (c : ℕ) (t : Text)
    → is_digit c ≡ true
    → read_signed (c ∷ t) ≡ Option.map pos (read_digits false 0 (c ∷ t))
unfolding read_signed
read_unsigned c t d = rw (digit-sign c d).0 (rw (digit-sign c d).1 refl)

read_signed-print_int : (z : ℤ) → read_signed (print_int z) ≡ some z
unfolding read_signed
read_signed-print_int (pos n) =
    let (c, t, e, d, ds) = decimal_cons n in
    ap read_signed e
    ∙ read_unsigned c t d
    ∙ ap (λ x. Option.map pos (read_digits false 0 x)) (sym e)
    ∙ ap (Option.map pos) (read_digits-decimal n)
read_signed-print_int (negsuc n) = ap (Option.map negated) (read_digits-decimal (suc n))

print_int_no_space : (z : ℤ) → All (λ c. is_space c ≡ false) (print_int z)
print_int_no_space (pos n) = digits_no_space (decimal n) (decimal_digits n)
print_int_no_space (negsuc n) = (refl, digits_no_space (decimal (suc n)) (decimal_digits (suc n)))

-- `int(str(z))` is z.
pub read_int-print_int : (z : ℤ) → read_int (print_int z) ≡ some z
unfolding read_int
read_int-print_int z =
    rw (strip_none (print_int z) (print_int_no_space z)) (read_signed-print_int z)
