-- ===== src/Operator/Int32.antt =====
-- Go's int32 in go-operator/internal/controller: an int32 is its 32 bits, a number below 2^32, and
-- from 2^31 on it stands for a negative number.
use ai_infra_demo.Base.{ℕ, ◌+◌, ◌-◌, ◌%◌, ◌<◌, ◌≡◌, Bool, ◌∷◌, arith, ltb, if◌then◌else◌}
use ai_infra_demo.Base.Int.{ℤ, pos, negsuc}
use ai_infra_demo.Py.Text.{Text}
use ai_infra_demo.Py.Decimal.{decimal}

-- 2^31 and 2^32
abbrev pub sign_bit : ℕ
sign_bit = 2147483648

abbrev pub modulus : ℕ
modulus = 4294967296

-- `a + 1` and `a - 1`
abbrev pub increment : ℕ → ℕ
increment a = (a + 1) % modulus

abbrev pub decrement : ℕ → ℕ
decrement a = (a + 4294967295) % modulus

-- `a < b`, where the negative numbers come before the others.
abbrev pub signed_key : ℕ → ℕ
signed_key a = (a + sign_bit) % modulus

abbrev pub less : ℕ → ℕ → Bool
less a b = ltb (signed_key a) (signed_key b)

-- `int32(v)` of an int
abbrev pub to_int32 : ℤ → ℕ
to_int32 (pos n) = n % modulus
to_int32 (negsuc n) = 4294967295 - n % modulus

-- `%d`
abbrev pub print_int32 : ℕ → Text
print_int32 a = if ltb a sign_bit then decimal a else 45 ∷ decimal (modulus - a)

-- Numbers that are not negative are compared as they are.
pub less_nonnegative : (a b : ℕ) → a < sign_bit → b < sign_bit → less a b ≡ ltb a b
less_nonnegative a b ha hb = ground arith

pub increment_small : (a : ℕ) → a < sign_bit → increment a ≡ a + 1
increment_small a h = omega arith

pub decrement_pos : (a : ℕ) → 0 < a → a < sign_bit → decrement a ≡ a - 1
decrement_pos a some_one h = omega arith
