-- ===== src/Operator/Metrics.antt =====
-- go-operator/internal/controller/metrics_provider.go.
pub mod Unrecognised
use ai_infra_demo.Base.{
  ℕ, Bool, true, false, not, Option, none, some, List, [], ◌∷◌, ◌++◌, ◌==◌, if◌then◌else◌,
}
use ai_infra_demo.Base.Int.{ℤ}
use ai_infra_demo.Py.Text.{Text, codes, text_eq}
use ai_infra_demo.Py.Decimal.{decimal}
use ai_infra_demo.Operator.Int32.{to_int32}
use ai_infra_demo.Operator.Status.{Fallible, value, failed}
use ai_infra_demo.Operator.Reconcile.{Metrics}
use ai_infra_demo.Operator.Strings.{split_lines, fields, atoi}

-- What the HTTP client gives for a request.
pub record Response : Type 0 where
  pub status_code : ℕ
  pub body : Fallible Text

-- The errors of `http.NewRequestWithContext` for an endpoint, where it has one, and what the client
-- answers.
pub record Http : Type 0 where
  pub new_request : Text → Option Text
  pub send : Text → Fallible Response

-- `fmt.Errorf("…: %w", err)`
abbrev pub wrap : {A : Type 0} → Text → Text → Fallible A
wrap what e = failed (what ++ (codes ": " ++ e))

abbrev pub no_metrics : Metrics
no_metrics = record { kv_cache_usage_percent = 0; num_requests_waiting = 0 }

abbrev pub usage_name : Text
usage_name = codes "vllm_kv_cache_usage_perc"

abbrev pub waiting_name : Text
waiting_name = codes "vllm_num_requests_waiting"

-- A float64 is a value of F: `strconv.ParseFloat`, and `int32(v * 100)`. `atoi_error` is the text of an
-- error of `strconv.Atoi`.
module _ {F : Type 0} (parse_float : Text → Fallible F) (percent : F → ℕ)
    (atoi_error : Text → Text) where
  unfoldable pub set_usage : Fallible F → Metrics → Fallible Metrics
  set_usage (failed e) m = wrap (codes "parsing kv cache usage") e
  set_usage (value v) m = value (record m { kv_cache_usage_percent = percent v })

  unfoldable pub set_waiting : Text → Option ℤ → Metrics → Fallible Metrics
  set_waiting t none m = wrap (codes "parsing requests waiting") (atoi_error t)
  set_waiting t (some v) m = value (record m { num_requests_waiting = to_int32 v })

  -- A line by its fields.
  unfoldable pub parse_fields : List Text → Metrics → Fallible Metrics
  unfolding set_usage set_waiting
  parse_fields (name ∷ v ∷ []) m =
      if text_eq name usage_name
      then set_usage (parse_float v) m
      else if text_eq name waiting_name
      then set_waiting v (atoi v) m
      else value m
  parse_fields _ m = value m

  -- The lines from one on; an error ends the loop.
  unfoldable pub parse_lines : List Text → Metrics → Fallible Metrics
  unfolding parse_fields
  parse_lines [] m = value m
  parse_lines (line ∷ lines) m = elim (parse_fields (fields line) m) [
    | failed e ↦ failed e
    | value n ↦ parse_lines lines n
  ]

  unfoldable pub parse_prometheus_metrics : Text → Fallible Metrics
  unfolding parse_lines
  parse_prometheus_metrics text = parse_lines (split_lines text) no_metrics

  abbrev pub read_body : Fallible Text → Fallible Metrics
  read_body (failed e) = wrap (codes "reading metrics response") e
  read_body (value body) = parse_prometheus_metrics body

  abbrev pub read_response : Fallible Response → Fallible Metrics
  read_response (failed e) = wrap (codes "calling metrics endpoint") e
  read_response (value resp) =
      if resp.status_code == 200
      then read_body resp.body
      else failed (codes "metrics endpoint returned status " ++ decimal resp.status_code)

  -- `GetMetrics`
  unfoldable pub get_metrics : Http → Text → Fallible Metrics
  unfolding parse_prometheus_metrics
  get_metrics http endpoint = elim (http.new_request endpoint) [
    | some e ↦ wrap (codes "building metrics request") e
    | none ↦ read_response (http.send endpoint)
  ]
