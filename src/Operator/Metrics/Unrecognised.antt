-- ===== src/Operator/Metrics/Unrecognised.antt =====
-- A reply without the two metrics.
use ai_infra_demo.Base.{ℕ, ◌<◌, ◌≡◌, refl, ◌∙◌, true, false, none, List, [], ◌∷◌, All, arith}
use ai_infra_demo.Py.Text.{Text, text_eq}
use ai_infra_demo.Operator.Int32.{sign_bit, less_nonnegative}
use ai_infra_demo.Operator.Types.{Spec}
use ai_infra_demo.Operator.Scaling.Bounds.{is_pressed, is_idle}
use ai_infra_demo.Operator.Status.{Fallible, value}
use ai_infra_demo.Operator.Strings.{split_lines, fields}
use ai_infra_demo.Operator.Reconcile.{Metrics}
use ai_infra_demo.Operator.Metrics.{
  Http, no_metrics, usage_name, waiting_name, parse_fields, parse_lines, parse_prometheus_metrics,
  get_metrics,
}

-- Fields that are not those of one of the two metrics.
abbrev pub IsOther : List Text → Type 0
IsOther (name ∷ v ∷ []) = (text_eq name usage_name ≡ false) × (text_eq name waiting_name ≡ false)
IsOther _ = Unit

module _ {F : Type 0} (parse_float : Text → Fallible F) (percent : F → ℕ)
    (atoi_error : Text → Text) where
  parse_fields-IsOther :
      (ws : List Text) (m : Metrics)
      → IsOther ws
      → parse_fields parse_float percent atoi_error ws m ≡ value m
  unfolding parse_fields
  parse_fields-IsOther [] m other = refl
  parse_fields-IsOther (name ∷ []) m other = refl
  parse_fields-IsOther (name ∷ v ∷ []) m (e, f) = rw (e, f) refl
  parse_fields-IsOther (name ∷ v ∷ w ∷ ws) m other = refl

  parse_lines-IsOther :
      (lines : List Text) (m : Metrics)
      → All (λ line. IsOther (fields line)) lines
      → parse_lines parse_float percent atoi_error lines m ≡ value m
  unfolding parse_lines
  parse_lines-IsOther [] m others = refl
  parse_lines-IsOther (line ∷ lines) m (other, others) =
      rw (parse_fields-IsOther (fields line) m other, parse_lines)
        (parse_lines-IsOther lines m others)

  -- A reply with status 200 in which no line is one of the two metrics is taken for a usage of 0 and no
  -- requests, without an error. That usage is below a lower threshold that is positive, and not above
  -- an upper threshold that is not negative.
  pub get_metrics-unrecognised :
      (http : Http) (endpoint body : Text) (spec : Spec)
      → http.new_request endpoint ≡ none
      → http.send endpoint ≡ value (record { status_code = 200; body = value body })
      → All (λ line. IsOther (fields line)) (split_lines body)
      → 0 < spec.kv_cache_scale_down_threshold_percent
      → spec.kv_cache_scale_down_threshold_percent < sign_bit
      → spec.kv_cache_threshold_percent < sign_bit
      → (get_metrics parse_float percent atoi_error http endpoint ≡ value no_metrics)
        × (is_pressed 0 spec ≡ false)
        × (is_idle 0 spec ≡ true)
  unfolding get_metrics parse_prometheus_metrics
  get_metrics-unrecognised http endpoint body spec built sent others some_percent low high = (
    rw (built, sent, get_metrics) (parse_lines-IsOther (split_lines body) no_metrics others),
    less_nonnegative spec.kv_cache_threshold_percent 0 high (omega arith) ∙ ground arith,
    less_nonnegative 0 spec.kv_cache_scale_down_threshold_percent (omega arith) low ∙ ground arith,
  )
