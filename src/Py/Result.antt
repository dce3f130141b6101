-- ===== src/Py/Result.antt =====
-- What a Python call gives: its value or the exception that it raises.
use ai_infra_demo.Base.{◌≡◌, refl, ◌⊎◌, inl, inr, Option, none, some}

-- The exceptions that the scripts can meet, by class.
pub data Error : Type 0 where
  url_error read_error unicode_decode_error json_decode_error : Error
  attribute_error index_error key_error type_error value_error : Error
  zero_division_error unbound_local_error statistics_error : Error

-- A call returns or raises.
pub data Result {ℓ} (A : Type ℓ) : Type ℓ where
  ok : A → Result A
  raised : Error → Result A

pub Result-cases {ℓ} :
    {A : Type ℓ} (r : Result A) → ((a : A) × (r ≡ ok a)) ⊎ ((e : Error) × (r ≡ raised e))
Result-cases (ok a) = inl (a, refl)
Result-cases (raised e) = inr (e, refl)

-- `none` raises the given exception.
abbrev pub or_raise {ℓ} : {A : Type ℓ} → Error → Option A → Result A
or_raise e (some a) = ok a
or_raise e none = raised e

module _ {ℓ κ} {A : Type ℓ} {B : Type κ} where
  abbrev pub map_ok : (A → B) → Result A → Result B
  map_ok f (raised e) = raised e
  map_ok f (ok a) = ok (f a)

  infixl 5 ◌>>=◌
  -- The next call is made where the first returned.
  abbrev pub ◌>>=◌ : Result A → (A → Result B) → Result B
  raised e >>= next = raised e
  ok a >>= next = next a

  -- What returned did so through both calls.
  pub >>=-eq-ok :
      (first : Result A) (next : A → Result B) {b : B}
      → (first >>= next) ≡ ok b
      → (a : A) × (first ≡ ok a) × (next a ≡ ok b)
  >>=-eq-ok (raised e) next h = cc
  >>=-eq-ok (ok a) next h = (a, refl, h)
