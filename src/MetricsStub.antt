-- ===== src/MetricsStub.antt =====
-- go-operator/local-test/metrics-stub/app.py: the server that stands in for a workload's metrics
-- endpoint.
pub mod Updates
pub mod Scrapes
pub mod Loop
use ai_infra_demo.Base.{
  ℕ, Bool, true, false, ◌||◌, Option, none, some, List, [], ◌∷◌, ◌++◌, if◌then◌else◌,
}
use ai_infra_demo.Base.Int.{ℤ, pos}
use ai_infra_demo.Py.Result.{Result, ok, raised, Error, type_error, ◌>>=◌, map_ok}
use ai_infra_demo.Py.Text.{Text, codes, text_eq, starts_with}
use ai_infra_demo.Py.Json.{
  Json, null, bool, int, float, str, arr, obj, Items, nil, cons, Fields, end, field, truthy,
  field_or,
}
use ai_infra_demo.Py.Digits.{print_int}

-- `state`; a Python float is a value of F.
pub record State (F : Type 0) : Type 0 where
  pub kv_cache_usage_perc : F
  pub num_requests_waiting : ℤ

-- `0.45`
abbrev pub initial : {F : Type 0} → F → State F
initial usage = record { kv_cache_usage_perc = usage; num_requests_waiting = pos 0 }

-- The body of `/metrics`, for the `str` of a float.
unfoldable pub metrics : {F : Type 0} → (F → Text) → State F → Text
metrics print_float state =
    codes "vllm_kv_cache_usage_perc "
    ++ (print_float state.kv_cache_usage_perc
        ++ (10
            ∷ (codes "vllm_num_requests_waiting "
                ++ (print_int state.num_requests_waiting ++ 10 ∷ []))))

-- `request.get_json(silent=True) or request.args`; the arguments are a dict of strings.
unfoldable pub request_data : Option Json → Fields → Json
unfolding truthy
request_data none args = obj args
request_data (some body) args = if truthy body then body else obj args

unfoldable pub has_field : Text → Fields → Bool
has_field k end = false
has_field k (field j v fs) = text_eq j k || has_field k fs

abbrev is_text : Text → Json → Bool
is_text k (str t) = text_eq t k
is_text k _ = false

abbrev has_item : Text → Items → Bool
has_item k nil = false
has_item k (cons v vs) = is_text k v || has_item k vs

abbrev has_substring : Text → Text → Bool
has_substring k [] = starts_with [] k
has_substring k (c ∷ t) = starts_with (c ∷ t) k || has_substring k t

-- `k in data`
unfoldable pub contains : Text → Json → Result Bool
unfolding has_field
contains k (obj fs) = ok (has_field k fs)
contains k (arr vs) = ok (has_item k vs)
contains k (str t) = ok (has_substring k t)
contains k _ = raised type_error

-- `data[k]`, where k is in it
unfoldable pub subscript : Text → Json → Result Json
subscript k (obj fs) = ok (field_or k null fs)
subscript k _ = raised type_error

-- The value under k, where k is in the data.
unfoldable pub value_of : Text → Json → Result (Option Json)
unfolding contains subscript
value_of k values =
    contains k values >>= λ has. if has then map_ok some (subscript k values) else ok none

-- `float(v)` and `int(v)` are functions that can raise.
module _ {F : Type 0} (to_float : Json → Result F) (to_int : Json → Result ℤ) where
  abbrev put_usage : Result F → State F → State F × Option Error
  put_usage (ok v) state = (record state { kv_cache_usage_perc = v }, none)
  put_usage (raised e) state = (state, some e)

  -- `if "kv" in data: …`
  unfoldable pub set_usage : Result (Option Json) → State F → State F × Option Error
  set_usage (raised e) state = (state, some e)
  set_usage (ok none) state = (state, none)
  set_usage (ok (some v)) state = put_usage (to_float v) state

  abbrev put_waiting : Result ℤ → State F → State F × Option Error
  put_waiting (ok n) state = (record state { num_requests_waiting = n }, none)
  put_waiting (raised e) state = (state, some e)

  -- `if "requests" in data: …`
  unfoldable pub set_waiting : Result (Option Json) → State F → State F × Option Error
  set_waiting (raised e) state = (state, some e)
  set_waiting (ok none) state = (state, none)
  set_waiting (ok (some v)) state = put_waiting (to_int v) state

  abbrev pub respond : State F × Option Error → State F × Result (State F)
  respond (state, none) = (state, ok state)
  respond (state, some e) = (state, raised e)

  abbrev pub then_waiting : Json → State F × Option Error → State F × Result (State F)
  then_waiting values (state, none) =
      respond (set_waiting (value_of (codes "requests") values) state)
  then_waiting values (state, some e) = (state, raised e)

  -- `set_metrics`: the state that it leaves, and the one it answers with or the exception that it
  -- raises.
  unfoldable pub set_metrics : Option Json → Fields → State F → State F × Result (State F)
  unfolding set_usage set_waiting
  set_metrics body args state =
      let values = request_data body args in
      then_waiting values (set_usage (value_of (codes "kv") values) state)
