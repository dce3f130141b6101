-- ===== src/Operator/Strings.antt =====
-- Go's `strings.Split`, `strings.Fields` and `strconv.Atoi`, as metrics_provider.go calls them. A Go
-- string is the list of its characters.
pub mod Laws
use ai_infra_demo.Base.{
  ℕ, zero, suc, Bool, true, false, not, ◌&&◌, ◌||◌, Option, none, some, List, [], ◌∷◌, leb, ltb,
  ◌==◌, if◌then◌else◌,
}
use ai_infra_demo.Base.Int.{ℤ, pos, negsuc}
use ai_infra_demo.Py.Text.{Text}
use ai_infra_demo.Py.Decimal.{of_digits}
use ai_infra_demo.Py.Digits.{is_digit}

-- A character in front of the first of several texts.
abbrev pub push : ℕ → List Text → List Text
push c [] = (c ∷ []) ∷ []
push c (w ∷ ws) = (c ∷ w) ∷ ws

-- The texts between the characters that p holds of.
unfoldable pub split_by : (ℕ → Bool) → Text → List Text
split_by p [] = [] ∷ []
split_by p (c ∷ t) = let rest = split_by p t in if p c then [] ∷ rest else push c rest

abbrev pub is_newline : ℕ → Bool
is_newline c = c == 10

-- `strings.Split(t, "\n")`
unfoldable pub split_lines : Text → List Text
unfolding split_by
split_lines t = split_by is_newline t

-- `unicode.IsSpace`
abbrev pub is_space : ℕ → Bool
is_space c =
    (leb 9 c && leb c 13)
    || c == 32
    || c == 0x85
    || c == 0xa0
    || c == 0x1680
    || (leb 0x2000 c && leb c 0x200a)
    || c == 0x2028
    || c == 0x2029
    || c == 0x202f
    || c == 0x205f
    || c == 0x3000

abbrev pub nonempty : List Text → List Text
nonempty [] = []
nonempty ([] ∷ ws) = nonempty ws
nonempty ((c ∷ w) ∷ ws) = (c ∷ w) ∷ nonempty ws

-- `strings.Fields`
unfoldable pub fields : Text → List Text
unfolding split_by
fields t = nonempty (split_by is_space t)

abbrev pub all_digits : Text → Bool
all_digits [] = true
all_digits (c ∷ t) = is_digit c && all_digits t

-- The digits of a number, of which there must be some.
abbrev pub unsigned : Text → Option ℕ
unsigned [] = none
unsigned (c ∷ t) = if all_digits (c ∷ t) then some (of_digits (c ∷ t)) else none

-- 2^63
abbrev pub int64_sign : ℕ
int64_sign = 9223372036854775808

abbrev negated : ℕ → ℤ
negated zero = pos 0
negated (suc n) = negsuc n

abbrev pub to_int64 : Bool → ℕ → Option ℤ
to_int64 true n = if leb n int64_sign then some (negated n) else none
to_int64 false n = if ltb n int64_sign then some (pos n) else none

abbrev pub bounded : Bool → Option ℕ → Option ℤ
bounded negative none = none
bounded negative (some n) = to_int64 negative n

-- `strconv.Atoi`, on a machine of 64 bits; `none` is its error.
unfoldable pub atoi : Text → Option ℤ
atoi [] = none
atoi (c ∷ t) =
    if c == 45
    then bounded true (unsigned t)
    else if c == 43
    then bounded false (unsigned t)
    else bounded false (unsigned (c ∷ t))
