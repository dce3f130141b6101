-- ===== src/Py/Json.antt =====
-- Values of `json.loads` and what the scripts do with one: truth, `get`, `[0]` and `join`.
-- A number keeps its decimal form: `float m k` is m / 10^k. `NaN` and `Infinity` are left out.
use ai_infra_demo.Base.{ℕ, zero, Bool, true, false, List, [], ◌∷◌, ◌++◌, if◌then◌else◌}
use ai_infra_demo.Base.Int.{ℤ, pos}
use ai_infra_demo.Py.Result.{
  Result, ok, raised, ◌>>=◌, attribute_error, index_error, key_error, type_error,
}
use ai_infra_demo.Py.Text.{Text, text_eq}

mutual
  pub data Json : Type 0 where
    null : Json
    bool : Bool → Json
    int : ℤ → Json
    float : ℤ → ℕ → Json
    str : Text → Json
    arr : Items → Json
    obj : Fields → Json

  pub data Items : Type 0 where
    nil : Items
    cons : Json → Items → Items

  pub data Fields : Type 0 where
    end : Fields
    field : Text → Json → Fields → Fields

abbrev nonzero : ℤ → Bool
nonzero (pos zero) = false
nonzero _ = true

-- `bool(v)`
unfoldable pub truthy : Json → Bool
truthy null = false
truthy (bool b) = b
truthy (int n) = nonzero n
truthy (float m k) = nonzero m
truthy (str []) = false
truthy (str (c ∷ t)) = true
truthy (arr nil) = false
truthy (arr (cons x xs)) = true
truthy (obj end) = false
truthy (obj (field k v fs)) = true

-- `d.get(k, default)` of a dict
unfoldable pub field_or : Text → Json → Fields → Json
field_or k default end = default
field_or k default (field j v fs) = if text_eq j k then v else field_or k default fs

-- `v.get(k, default)`: only a dict has the method.
unfoldable pub get : Text → Json → Json → Result Json
get k default (obj fs) = ok (field_or k default fs)
get k default _ = raised attribute_error

-- `v[0]`: the keys of a JSON object are strings, so a dict has no key 0.
unfoldable pub item_0 : Json → Result Json
item_0 (arr (cons x xs)) = ok x
item_0 (arr nil) = raised index_error
item_0 (str (c ∷ t)) = ok (str (c ∷ []))
item_0 (str []) = raised index_error
item_0 (obj fs) = raised key_error
item_0 _ = raised type_error

abbrev pub empty_str : Json
empty_str = str []

-- `v or ""`
unfoldable pub or_empty : Json → Json
unfolding truthy
or_empty v = if truthy v then v else empty_str

abbrev as_text : Json → Result Text
as_text (str t) = ok t
as_text _ = raised type_error

-- `"".join(vs)`
unfoldable pub join : List Json → Result Text
join [] = ok []
join (v ∷ vs) = as_text v >>= λ t. join vs >>= λ rest. ok (t ++ rest)
