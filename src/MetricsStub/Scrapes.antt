-- ===== src/MetricsStub/Scrapes.antt =====
-- What the operator reads of the stub's `/metrics`.
use ai_infra_demo.Base.{ℕ, ◌≡◌, ◌≢◌, refl, ap, ◌∙◌, [], ◌∷◌, ◌++◌}
use ai_infra_demo.Base.Int.{ℤ}
use ai_infra_demo.Py.Text.{Text, text_eq}
use ai_infra_demo.Py.Digits.{print_int}
use ai_infra_demo.Operator.Int32.{to_int32}
use ai_infra_demo.Operator.Status.{Fallible, value}
use ai_infra_demo.Operator.Reconcile.{Metrics}
use ai_infra_demo.Operator.Strings.{is_newline, is_space, split_by, split_lines, fields}
use ai_infra_demo.Operator.Strings.Laws.{
  Free, is_free-Free, Free-append, Free-newline, print_int-Free, print_int-ne-nil, FitsInt64,
  split_by-Free, split_by_next, fields_pair, atoi-print_int,
}
use ai_infra_demo.Operator.Metrics.{
  no_metrics, usage_name, waiting_name, set_usage, set_waiting, parse_fields, parse_lines,
  parse_prometheus_metrics,
}
use ai_infra_demo.MetricsStub.{State, metrics}

split_metrics :
    (usage waiting : Text)
    → Free is_newline usage
    → Free is_newline waiting
    → split_lines (usage ++ 10 ∷ (waiting ++ 10 ∷ [])) ≡ usage ∷ waiting ∷ [] ∷ []
unfolding split_lines
split_metrics usage waiting f g =
    split_by_next is_newline usage 10 (waiting ++ 10 ∷ []) f refl
    ∙ ap (◌∷◌ usage) (
        split_by_next is_newline waiting 10 [] g refl
        ∙ ap (◌∷◌ waiting) (split_by-Free is_newline [] tt))

usage_name-Free : Free is_space usage_name
usage_name-Free = is_free-Free is_space usage_name refl

waiting_name-Free : Free is_space waiting_name
waiting_name-Free = is_free-Free is_space waiting_name refl

-- A name, a space and a value make a line.
line-Free :
    (name v : Text) → Free is_space name → Free is_space v → Free is_newline (name ++ 32 ∷ v)
line-Free name v f g =
    Free-append is_newline name (32 ∷ v) (Free-newline name f) (refl, Free-newline v g)

module _ {F : Type 0} (parse_float : Text → Fallible F) (percent : F → ℕ) (atoi_error : Text → Text)
    (print_float : F → Text) where
  -- Python prints the float in a form without spaces that Go reads back.
  abbrev pub IsPrinted : F → Type 0
  IsPrinted f =
      (print_float f ≢ []) × Free is_space (print_float f) × (parse_float (print_float f) ≡ value f)

  usage_line :
      (f : F) (m : Metrics)
      → IsPrinted f
      → parse_fields parse_float percent atoi_error (fields (usage_name ++ 32 ∷ print_float f)) m
        ≡ value (record m { kv_cache_usage_percent = percent f })
  unfolding parse_fields set_usage text_eq
  usage_line f m (some_char, free, back) =
      ap (λ ws. parse_fields parse_float percent atoi_error ws m)
        (fields_pair usage_name (print_float f) (λ e. cc) usage_name-Free some_char free)
      ∙ ap (λ o. set_usage parse_float percent atoi_error o m) back

  waiting_line :
      (z : ℤ) (m : Metrics)
      → FitsInt64 z
      → parse_fields parse_float percent atoi_error (fields (waiting_name ++ 32 ∷ print_int z)) m
        ≡ value (record m { num_requests_waiting = to_int32 z })
  unfolding parse_fields set_waiting text_eq
  waiting_line z m fits =
      ap (λ ws. parse_fields parse_float percent atoi_error ws m)
        (fields_pair waiting_name (print_int z) (λ e. cc) waiting_name-Free (print_int-ne-nil z)
          (print_int-Free z))
      ∙ ap (λ o. set_waiting parse_float percent atoi_error (print_int z) o m)
          (atoi-print_int z fits)

  -- The operator reads from the body of the stub what its state holds: the usage in percent, and the
  -- number of requests in 32 bits, provided that the usage is printed in a form that Go reads back,
  -- and that the number fits Go's int.
  pub parse-metrics :
      (state : State F)
      → IsPrinted state.kv_cache_usage_perc
      → FitsInt64 state.num_requests_waiting
      → parse_prometheus_metrics parse_float percent atoi_error (metrics print_float state)
        ≡ value (record {
          kv_cache_usage_percent = percent state.kv_cache_usage_perc;
          num_requests_waiting = to_int32 state.num_requests_waiting;
        })
  unfolding parse_prometheus_metrics parse_lines parse_fields fields split_by metrics
  parse-metrics state (some_char, free, back) fits =
      let f = state.kv_cache_usage_perc in
      let z = state.num_requests_waiting in
      let usage = usage_name ++ 32 ∷ print_float f in
      let waiting = waiting_name ++ 32 ∷ print_int z in
      ap (λ lines. parse_lines parse_float percent atoi_error lines no_metrics)
        (split_metrics usage waiting (line-Free usage_name (print_float f) usage_name-Free free)
          (line-Free waiting_name (print_int z) waiting_name-Free (print_int-Free z)))
      ∙ rw
          (
            usage_line f no_metrics (some_char, free, back),
            waiting_line z (record no_metrics { kv_cache_usage_percent = percent f }) fits,
          )
          refl
