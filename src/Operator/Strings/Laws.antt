-- ===== src/Operator/Strings/Laws.antt =====
-- Lines and fields of a text put together from such, and the numbers that `Atoi` reads.
use ai_infra_demo.Base.{
  ℕ, suc, ◌<◌, ◌≡◌, ◌≢◌, refl, sym, ap, ◌∙◌, Bool, true, false, some, [], ◌∷◌, ◌++◌, All, arith,
  ltb, ◌==◌, ==_iff, lt→ltb, le→leb, Bool-cases, inl, inr, ◌+◌, ◌/◌, ◌%◌, if◌then◌else◌,
}
use ai_infra_demo.Base.Int.{ℤ, pos, negsuc}
use ai_infra_demo.Py.Text.{Text}
use ai_infra_demo.Py.Decimal.{decimal, digits, of_digits, of_digits-decimal}
use ai_infra_demo.Py.Digits.{is_digit, AllDigits, digits-AllDigits, print_int}
use ai_infra_demo.Operator.Strings.{
  split_by, is_newline, is_space, nonempty, fields, all_digits, unsigned, bounded, int64_sign, atoi,
}

-- No character of the text ends a part.
abbrev pub Free : (ℕ → Bool) → Text → Type 0
Free p = All (λ c. p c ≡ false)

-- A test for it, for the literals of a program.
abbrev pub is_free : (ℕ → Bool) → Text → Bool
is_free p [] = true
is_free p (c ∷ t) = if p c then false else is_free p t

pub is_free-Free : (p : ℕ → Bool) (t : Text) → is_free p t ≡ true → Free p t
is_free-Free p [] e = tt
is_free-Free p (c ∷ t) e = elim (Bool-cases (p c)) [
  | inl part ↦ absurd (false-ne-true (sym (taken part) ∙ e))
  | inr other ↦ (other, is_free-Free p t (sym (left other) ∙ e))
]
  where
    false-ne-true : false ≢ true
    false-ne-true q = cc

    taken : p c ≡ true → is_free p (c ∷ t) ≡ false
    taken part = rw part refl

    left : p c ≡ false → is_free p (c ∷ t) ≡ is_free p t
    left other = rw other refl

pub split_by-Free : (p : ℕ → Bool) (t : Text) → Free p t → split_by p t ≡ t ∷ []
unfolding split_by
split_by-Free p [] free = refl
split_by-Free p (c ∷ t) (h, free) = rw (h, split_by-Free p t free) refl

pub split_by_next :
    (p : ℕ → Bool) (t : Text) (c : ℕ) (u : Text)
    → Free p t
    → p c ≡ true
    → split_by p (t ++ c ∷ u) ≡ t ∷ split_by p u
unfolding split_by
split_by_next p [] c u free e = rw e refl
split_by_next p (d ∷ t) c u (h, free) e = rw (h, split_by_next p t c u free e) refl

-- A name, a space and a value without spaces.
pub fields_pair :
    (name v : Text)
    → name ≢ []
    → Free is_space name
    → v ≢ []
    → Free is_space v
    → fields (name ++ 32 ∷ v) ≡ name ∷ v ∷ []
unfolding fields
fields_pair [] v some_name f some_char g = absurd (some_name refl)
fields_pair (c ∷ name) [] some_name f some_char g = absurd (some_char refl)
fields_pair (c ∷ name) (d ∷ v) some_name f some_char g = ap nonempty (
    split_by_next is_space (c ∷ name) 32 (d ∷ v) f refl
    ∙ ap (◌∷◌ (c ∷ name)) (split_by-Free is_space (d ∷ v) g))

pub Free-append : (p : ℕ → Bool) (s t : Text) → Free p s → Free p t → Free p (s ++ t)
Free-append p [] t f g = g
Free-append p (c ∷ s) t (h, f) g = (h, Free-append p s t f g)

newline_is_space : (c : ℕ) → is_space c ≡ false → is_newline c ≡ false
newline_is_space c h = elim (Bool-cases (c == 10)) [
  | inl newline ↦ absurd (true-ne-false (ap is_space (sym ((==_iff c 10).0 newline)) ∙ h))
  | inr other ↦ other
]
  where
    true-ne-false : true ≢ false
    true-ne-false e = cc

-- Without spaces there are no line ends.
pub Free-newline : (t : Text) → Free is_space t → Free is_newline t
Free-newline [] f = tt
Free-newline (c ∷ t) (h, f) = (newline_is_space c h, Free-newline t f)

digit_space : (c : ℕ) → is_digit c ≡ true → is_space c ≡ false
digit_space c h = ground arith

AllDigits-Free : (t : Text) → AllDigits t → Free is_space t
AllDigits-Free [] d = tt
AllDigits-Free (c ∷ t) (h, d) = (digit_space c h, AllDigits-Free t d)

-- A number that Go's int can hold.
abbrev pub FitsInt64 : ℤ → Type 0
FitsInt64 (pos n) = n < int64_sign
FitsInt64 (negsuc n) = n < int64_sign

all_digits-AllDigits : (t : Text) → AllDigits t → all_digits t ≡ true
all_digits-AllDigits [] d = refl
all_digits-AllDigits (c ∷ t) (h, d) = rw (h, all_digits-AllDigits t d) refl

unsigned-AllDigits : (t : Text) → t ≢ [] → AllDigits t → unsigned t ≡ some (of_digits t)
unsigned-AllDigits [] some_digit d = absurd (some_digit refl)
unsigned-AllDigits (c ∷ t) some_digit d = rw (all_digits-AllDigits (c ∷ t) d) refl

not_sign : (c k : ℕ) → is_digit c ≡ true → k < 48 → (c == k) ≡ false
not_sign c k h small = ground arith

atoi-unsigned : (t : Text) → t ≢ [] → AllDigits t → atoi t ≡ bounded false (unsigned t)
unfolding atoi
atoi-unsigned [] some_digit d = absurd (some_digit refl)
atoi-unsigned (c ∷ t) some_digit d =
    rw (not_sign c 45 d.0 (omega arith), not_sign c 43 d.0 (omega arith)) refl

append-ne-nil : (t : Text) (c : ℕ) → t ++ c ∷ [] ≢ []
append-ne-nil [] c e = cc
append-ne-nil (d ∷ t) c e = cc

decimal-ne-nil : (n : ℕ) → decimal n ≢ []
unfolding decimal digits
decimal-ne-nil n = elim (Bool-cases (ltb n 10)) [
  | inl small ↦ rw (small, digits) (λ e. cc)
  | inr large ↦ rw (large, digits) (append-ne-nil (digits n (n / 10)) (48 + n % 10))
]

pub decimal-AllDigits : (n : ℕ) → AllDigits (decimal n)
unfolding decimal
decimal-AllDigits n = digits-AllDigits (suc n) n

unsigned-decimal : (n : ℕ) → unsigned (decimal n) ≡ some n
unsigned-decimal n =
    unsigned-AllDigits (decimal n) (decimal-ne-nil n) (decimal-AllDigits n)
    ∙ ap some (of_digits-decimal n)

pub atoi-print_int : (z : ℤ) → FitsInt64 z → atoi (print_int z) ≡ some z
unfolding atoi
atoi-print_int (pos n) h =
    atoi-unsigned (decimal n) (decimal-ne-nil n) (decimal-AllDigits n)
    ∙ ap (bounded false) (unsigned-decimal n)
    ∙ rw (lt→ltb n int64_sign h) refl
atoi-print_int (negsuc n) h =
    ap (bounded true) (unsigned-decimal (suc n)) ∙ rw (le→leb (suc n) int64_sign (omega arith)) refl

pub print_int-Free : (z : ℤ) → Free is_space (print_int z)
print_int-Free (pos n) = AllDigits-Free (decimal n) (decimal-AllDigits n)
print_int-Free (negsuc n) = (refl, AllDigits-Free (decimal (suc n)) (decimal-AllDigits (suc n)))

pub print_int-ne-nil : (z : ℤ) → print_int z ≢ []
print_int-ne-nil (pos n) e = decimal-ne-nil n e
print_int-ne-nil (negsuc n) e = cc
