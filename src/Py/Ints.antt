-- ===== src/Py/Ints.antt =====
-- `int(t)` of a text: the digits of ASCII with single underscores between them, a sign, and white space
-- around. The digits of other scripts, and the limit of 4,300 digits, are left out.
pub mod Laws
use mathlib.Core.Option
use ai_infra_demo.Base.{
  ℕ, zero, suc, ◌+◌, ◌-◌, ◌*◌, Bool, true, false, Option, none, some, List, [], ◌∷◌, ◌==◌, ◌&&◌,
  if◌then◌else◌, ◌≡◌, refl,
}
use ai_infra_demo.Base.Int.{ℤ, pos, negsuc}
use ai_infra_demo.Py.Text.{Text, strip}
use ai_infra_demo.Py.Digits.{is_digit}

-- The value of the digits read so far is `n`; `after_digit` says whether one has just been read.
unfoldable pub read_digits : Bool → ℕ → Text → Option ℕ
read_digits after_digit n [] = if after_digit then some n else none
read_digits after_digit n (c ∷ t) = elim (is_digit c) [
  | true ↦ read_digits true (n * 10 + (c - 48)) t
  | false ↦ elim (c == 95 && after_digit) [ true ↦ read_digits false n t | false ↦ none ]
]

abbrev pub negated : ℕ → ℤ
negated zero = pos 0
negated (suc n) = negsuc n

unfoldable pub read_signed : Text → Option ℤ
unfolding read_digits
read_signed [] = none
read_signed (c ∷ t) =
    if c == 45
    then Option.map negated (read_digits false 0 t)
    else if c == 43
    then Option.map pos (read_digits false 0 t)
    else Option.map pos (read_digits false 0 (c ∷ t))

unfoldable pub read_int : Text → Option ℤ
unfolding read_signed strip
read_int t = read_signed (strip t)

read_int_samples :
    (read_int (32 ∷ 45 ∷ 49 ∷ 95 ∷ 50 ∷ 10 ∷ []) ≡ some (negsuc 11))
    × (read_int (49 ∷ 95 ∷ []) ≡ none)
    × (read_int (43 ∷ []) ≡ none)
unfolding read_int
read_int_samples = (refl, refl, refl)
