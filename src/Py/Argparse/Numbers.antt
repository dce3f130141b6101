-- ===== src/Py/Argparse/Numbers.antt =====
-- Negative numbers are values: `_negative_number_matcher` of argparse.
use ai_infra_demo.Base.{
  ℕ, suc, ◌≡◌, refl, ap, ◌∙◌, Bool, true, false, none, List, [], ◌∷◌, All, ◌==◌, arith,
}
use ai_infra_demo.Base.Int.{ℤ, pos, negsuc}
use ai_infra_demo.Py.Text.{Text, text_eq, starts_with, codes}
use ai_infra_demo.Py.Digits.{is_digit, AllDigits, print_int}
use ai_infra_demo.Py.Ints.Laws.{decimal_cons}
use ai_infra_demo.Py.Argparse.{
  Argument, value, split_eq, exact, abbreviated, one_letter, option_tuples, dash_kind, kind_of,
  ends_in_digits, is_negative_number,
}
use ai_infra_demo.Py.Argparse.Laws.{kind_of_plain}

digit_ne_eq : (c : ℕ) → is_digit c ≡ true → (c == 61) ≡ false
digit_ne_eq c h = ground arith

digit_ne_dash : (c : ℕ) → is_digit c ≡ true → (c == 45) ≡ false
digit_ne_dash c h = ground arith

split_eq-AllDigits : (t : Text) → AllDigits t → split_eq t ≡ (t, none)
unfolding split_eq
split_eq-AllDigits [] h = refl
split_eq-AllDigits (c ∷ t) (h, hs) = rw (digit_ne_eq c h, split_eq, split_eq-AllDigits t hs) refl

ends_in_digits-AllDigits : (t : Text) → AllDigits t → ends_in_digits true t ≡ true
unfolding ends_in_digits
ends_in_digits-AllDigits [] h = refl
ends_in_digits-AllDigits (c ∷ t) (h, hs) = rw (h, ends_in_digits) (ends_in_digits-AllDigits t hs)

split_eq_number :
    (c : ℕ) (t : Text)
    → is_digit c ≡ true
    → AllDigits t
    → split_eq (45 ∷ c ∷ t) ≡ (45 ∷ c ∷ t, none)
unfolding split_eq
split_eq_number c t d ds = ap (λ p. (45 ∷ p.0, p.1)) (split_eq-AllDigits (c ∷ t) (d, ds))

number_not_dashes :
    (c : ℕ) (t : Text) → is_digit c ≡ true → (text_eq (45 ∷ c ∷ t) (codes "--") ≡ false)
unfolding text_eq
number_not_dashes c t d = rw (digit_ne_dash c d) refl

is_negative_number-AllDigits :
    (c : ℕ) (t : Text) → is_digit c ≡ true → AllDigits t → is_negative_number (c ∷ t) ≡ true
unfolding is_negative_number ends_in_digits
is_negative_number-AllDigits c t d ds = rw (d, ends_in_digits, ends_in_digits-AllDigits t ds) refl

-- No flag is a dash and a digit, so a negative number is not taken for an option.
abbrev second_is_digit : Text → Bool
second_is_digit (c ∷ d ∷ t) = is_digit d
second_is_digit _ = false

text_eq_number :
    (flag : Text) (c : ℕ) (t : Text)
    → is_digit c ≡ true
    → second_is_digit flag ≡ false
    → text_eq (45 ∷ c ∷ t) flag ≡ false
unfolding text_eq
text_eq_number [] c t d h = refl
text_eq_number (a ∷ []) c t d h = ground arith
text_eq_number (a ∷ b ∷ flag) c t d h = ground arith

starts_with_number :
    (flag : Text) (c : ℕ) (t : Text)
    → is_digit c ≡ true
    → second_is_digit flag ≡ false
    → starts_with flag (45 ∷ c ∷ t) ≡ false
unfolding starts_with
starts_with_number [] c t d h = refl
starts_with_number (a ∷ []) c t d h = ground arith
starts_with_number (a ∷ b ∷ flag) c t d h = ground arith

module _ {N : Type 0} where
  abbrev pub NoNumbers : List (Argument N) → Type 0
  NoNumbers = All (λ a. second_is_digit a.flag ≡ false)

  exact_number :
      (xs : List (Argument N)) (c : ℕ) (t : Text)
      → is_digit c ≡ true
      → NoNumbers xs
      → exact xs (45 ∷ c ∷ t) ≡ none
  unfolding exact
  exact_number [] c t d h = refl
  exact_number (a ∷ xs) c t d (h, hs) =
      rw (text_eq_number a.flag c t d h) (exact_number xs c t d hs)

  abbreviated_number :
      (xs : List (Argument N)) (c : ℕ) (t : Text)
      → is_digit c ≡ true
      → NoNumbers xs
      → abbreviated xs (45 ∷ c ∷ t) ≡ []
  unfolding abbreviated
  abbreviated_number [] c t d h = refl
  abbreviated_number (a ∷ xs) c t d (h, hs) =
      rw (starts_with_number a.flag c t d h) (abbreviated_number xs c t d hs)

module _ {N : Type 0} (arguments : List (Argument N)) where
  option_tuples_number :
      (c : ℕ) (t : Text)
      → is_digit c ≡ true
      → NoNumbers arguments
      → option_tuples arguments (45 ∷ c ∷ t) ≡ []
  unfolding option_tuples one_letter starts_with
  option_tuples_number c t d h =
      rw
        (
          digit_ne_dash c d,
          one_letter,
          exact_number arguments c [] d h,
          abbreviated_number arguments c t d h,
        )
        refl

  dash_kind_number :
      (c : ℕ) (t : Text)
      → is_digit c ≡ true
      → AllDigits t
      → NoNumbers arguments
      → dash_kind arguments (45 ∷ c ∷ t) ≡ value
  unfolding dash_kind text_eq
  dash_kind_number c t d ds h =
      rw (exact_number arguments c t d h, number_not_dashes c t d, split_eq_number c t d ds)
        (rw (option_tuples_number c t d h, is_negative_number-AllDigits c t d ds) refl)

  -- A printed int is a value, also a negative one.
  pub kind_of-print_int : (z : ℤ) → NoNumbers arguments → kind_of arguments (print_int z) ≡ value
  unfolding kind_of
  kind_of-print_int (pos n) h =
      let (c, t, e, d, ds) = decimal_cons n in
      ap (kind_of arguments) e ∙ kind_of_plain arguments (c ∷ t) (digit_ne_dash c d)
  kind_of-print_int (negsuc n) h =
      let (c, t, e, d, ds) = decimal_cons (suc n) in
      ap (λ x. kind_of arguments (45 ∷ x)) e ∙ dash_kind_number c t d ds h
