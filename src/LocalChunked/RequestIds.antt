-- ===== src/LocalChunked/RequestIds.antt =====
-- The number in the prompt of an injection.
use ai_infra_demo.Base.{ℕ, suc, ◌≡◌, refl, ap, ◌∙◌, [], ◌∷◌, ◌++◌, drop, if◌then◌else◌}
use ai_infra_demo.Py.Text.{Text}
use ai_infra_demo.Py.Decimal.{digits, decimal, of_digits, of_digits-decimal}
use ai_infra_demo.Py.Digits.{is_digit, AllDigits, digits-AllDigits}
use ai_infra_demo.LocalChunked.{unique_prompt}

-- The digits that a text begins with.
abbrev pub leading_digits : Text → Text
leading_digits [] = []
leading_digits (c ∷ t) = if is_digit c then c ∷ leading_digits t else []

leading_digits-append : (s t : Text) → AllDigits s → leading_digits (s ++ 93 ∷ t) ≡ s
leading_digits-append [] t d = refl
leading_digits-append (c ∷ s) t d = rw d.0 (ap (◌∷◌ c) (leading_digits-append s t d.1))

-- The number in the brackets that a prompt begins with.
abbrev pub request_id : Text → ℕ
request_id prompt = of_digits (leading_digits (drop 13 prompt))

-- The number of an injection can be read back from the beginning of its prompt, whatever text
-- follows it.
pub request_id-unique_prompt :
    (cold_prompt : Text) (n : ℕ) → request_id (unique_prompt cold_prompt n) ≡ n
unfolding unique_prompt decimal
request_id-unique_prompt cold_prompt n =
    ap of_digits (
      leading_digits-append (digits (suc n) n) (10 ∷ 10 ∷ cold_prompt) (digits-AllDigits (suc n) n))
    ∙ of_digits-decimal n
