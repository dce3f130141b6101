-- ===== src/Samples/Metrics.antt =====
-- A stub with floats of two decimals, and the theorems about its requests and their reader there.
use ai_infra_demo.Base.{
  ℕ, ◌+◌, ◌/◌, ◌%◌, ◌≡◌, refl, true, false, none, some, List, [], ◌∷◌, ◌++◌, length, arith,
}
use ai_infra_demo.Base.Int.{ℤ, pos}
use ai_infra_demo.Py.Result.{Result, ok, raised, value_error}
use ai_infra_demo.Py.Text.{Text, codes, text_eq}
use ai_infra_demo.Py.Json.{Json, int, str, Fields, end, field}
use ai_infra_demo.Py.Decimal.{of_digits}
use ai_infra_demo.Operator.Int32.{to_int32}
use ai_infra_demo.Operator.Status.{Fallible, value, failed, Answers}
use ai_infra_demo.Operator.Strings.{is_space, split_lines, split_by, fields}
use ai_infra_demo.Operator.Strings.Laws.{is_free-Free}
use ai_infra_demo.Operator.Scaling.Bounds.{is_pressed, is_idle}
use ai_infra_demo.Operator.Metrics.{Http, no_metrics, get_metrics, parse_prometheus_metrics}
use ai_infra_demo.Operator.Metrics.Unrecognised.{get_metrics-unrecognised}
use ai_infra_demo.MetricsStub.{State, metrics, set_metrics, request_data}
use ai_infra_demo.MetricsStub.Updates.{SetOrRaised, set_metrics-SetOrRaised}
use ai_infra_demo.MetricsStub.Loop.{settled, stub_rounds, reconcile_all-settled}
use ai_infra_demo.Operator.Reconcile.{reconcile_all}
use ai_infra_demo.MetricsStub.Scrapes.{IsPrinted, parse-metrics}
use ai_infra_demo.Samples.Clusters.{
  three_at_most, three_at_most-IsBand, one_replica, one_replica-HasReplicas, no_errors,
  put_condition,
}

-- A float is a number of hundredths below 1.
abbrev print_hundredths : ℕ → Text
print_hundredths n = codes "0." ++ ((48 + n / 10 % 10) ∷ (48 + n % 10) ∷ [])

abbrev parse_hundredths : Text → Fallible ℕ
parse_hundredths (zero_digit ∷ point ∷ c ∷ d ∷ []) = value (of_digits (c ∷ d ∷ []))
parse_hundredths t = failed t

abbrev hundredths : ℕ → ℕ
hundredths n = n

abbrev quoted : Text → Text
quoted t = t

abbrev half_full : State ℕ
half_full = record { kv_cache_usage_perc = 45; num_requests_waiting = pos 12 }

half_full-IsPrinted : IsPrinted parse_hundredths hundredths quoted print_hundredths 45
unfolding of_digits
half_full-IsPrinted = (λ e. cc, is_free-Free is_space (print_hundredths 45) refl, refl)

parse-metrics_example :
    parse_prometheus_metrics parse_hundredths hundredths quoted (metrics print_hundredths half_full)
    ≡ value (record { kv_cache_usage_percent = 45; num_requests_waiting = to_int32 (pos 12) })
parse-metrics_example =
    parse-metrics parse_hundredths hundredths quoted print_hundredths half_full half_full-IsPrinted
      (omega arith)

-- `{"kv_cache_usage_perc": 0.9}`, as JSON
abbrev json_reply : Text
json_reply = codes "{\"kv_cache_usage_perc\": 0.9}"

abbrev json_server : Http
json_server = record {
  new_request = λ endpoint. none;
  send = λ endpoint. value (record { status_code = 200; body = value json_reply });
}

get_metrics-unrecognised_example :
    (get_metrics parse_hundredths hundredths quoted json_server (codes "u") ≡ value no_metrics)
    × (is_pressed 0 three_at_most ≡ false)
    × (is_idle 0 three_at_most ≡ true)
unfolding split_lines split_by fields text_eq
get_metrics-unrecognised_example =
    get_metrics-unrecognised parse_hundredths hundredths quoted json_server (codes "u") json_reply
      three_at_most refl refl ((refl, refl), tt) (omega arith) (omega arith) (omega arith)

-- Whole numbers stand for hundredths, and nothing else is a number.
abbrev to_hundredths : Json → Result ℕ
to_hundredths (int (pos n)) = ok n
to_hundredths v = raised value_error

abbrev to_int : Json → Result ℤ
to_int (int z) = ok z
to_int v = raised value_error

-- `?kv=85` with a number of requests that is none.
abbrev half_wrong : Fields
half_wrong = field (codes "kv") (int (pos 85)) (field (codes "requests") (str (codes "x")) end)

set_metrics-SetOrRaised_example :
    SetOrRaised to_hundredths to_int
      (request_data none half_wrong)
      half_full
      (set_metrics to_hundredths to_int none half_wrong half_full)
set_metrics-SetOrRaised_example =
    set_metrics-SetOrRaised to_hundredths to_int none half_wrong half_full

-- The stub is 90 percent full, and is scraped three times.
abbrev nearly_full : State ℕ
nearly_full = record { kv_cache_usage_perc = 90; num_requests_waiting = pos 3 }

nearly_full-IsPrinted : IsPrinted parse_hundredths hundredths quoted print_hundredths 90
unfolding of_digits
nearly_full-IsPrinted = (λ e. cc, is_free-Free is_space (print_hundredths 90) refl, refl)

abbrev three_answers : List Answers
three_answers = no_errors ∷ no_errors ∷ no_errors ∷ []

reconcile_all-settled_example :
    (reconcile_all put_condition
      (codes "missing")
      (stub_rounds parse_hundredths hundredths quoted print_hundredths nearly_full three_answers)
      one_replica).deployment
    ≡ some (some (settled three_at_most 90 1 (length three_answers)))
reconcile_all-settled_example =
    reconcile_all-settled parse_hundredths hundredths quoted print_hundredths nearly_full
      nearly_full-IsPrinted (omega arith) put_condition (codes "missing") three_at_most
      three_answers one_replica 1 three_at_most-IsBand one_replica-HasReplicas
      ((refl, refl, refl), ((refl, refl, refl), ((refl, refl, refl), tt)))
