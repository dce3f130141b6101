-- ===== src/MetricsStub/Loop.antt =====
-- The operator beside a stub whose state does not change.
use ai_infra_demo.Base.{
  ℕ, ◌+◌, ◌-◌, ◌≡◌, refl, ap, ◌∙◌, true, false, none, some, List, [], ◌∷◌, All, length, length-map,
  map, min, inl, inr, Bool-cases, if◌then◌else◌,
}
use ai_infra_demo.Py.Text.{Text}
use ai_infra_demo.Operator.Types.{Spec, Condition}
use ai_infra_demo.Operator.Scaling.Bounds.{IsBand, is_pressed, is_idle}
use ai_infra_demo.Operator.Status.{Fallible, value, Cluster, Answers}
use ai_infra_demo.Operator.Strings.Laws.{FitsInt64}
use ai_infra_demo.Operator.Metrics.{Http, get_metrics}
use ai_infra_demo.Operator.Reconcile.{Round, reconcile_all}
use ai_infra_demo.Operator.Reconcile.Replicas.{HasReplicas}
use ai_infra_demo.Operator.Reconcile.Pressure.{
  MeetsUsage, IsPressed, IsIdle, IsCalm, reconcile_all-pressed, reconcile_all-idle,
  reconcile_all-calm,
}
use ai_infra_demo.MetricsStub.{State, metrics}
use ai_infra_demo.MetricsStub.Scrapes.{IsPrinted, parse-metrics}

-- No read fails, and no write of the Deployment.
abbrev pub IsServed : Answers → Type 0
IsServed a = (a.get_workload ≡ none) × (a.get_deployment ≡ none) × (a.update_deployment ≡ none)

-- Where n reconciles at one usage lead from a number of replicas.
abbrev pub settled : Spec → ℕ → ℕ → ℕ → ℕ
settled spec usage replicas n =
    if is_pressed usage spec
    then min (replicas + n) spec.max_replicas
    else if is_idle usage spec
    then spec.min_replicas + (replicas - (n + spec.min_replicas))
    else replicas

module _ (spec : Spec) (usage replicas n : ℕ) where
  settled_pressed :
      is_pressed usage spec ≡ true
      → min (replicas + n) spec.max_replicas ≡ settled spec usage replicas n
  settled_pressed pressed = rw pressed refl

  settled_idle :
      is_pressed usage spec ≡ false
      → is_idle usage spec ≡ true
      → spec.min_replicas + (replicas - (n + spec.min_replicas)) ≡ settled spec usage replicas n
  settled_idle calm idle = rw (calm, idle) refl

  settled_calm :
      is_pressed usage spec ≡ false
      → is_idle usage spec ≡ false
      → replicas ≡ settled spec usage replicas n
  settled_calm calm busy = rw (calm, busy) refl

module _ {F : Type 0} (parse_float : Text → Fallible F) (percent : F → ℕ) (atoi_error : Text → Text)
    (print_float : F → Text) where
  -- The stub behind every endpoint.
  abbrev pub stub_http : State F → Http
  stub_http state = record {
    new_request = λ endpoint. none;
    send =
        λ endpoint. value (record { status_code = 200; body = value (metrics print_float state) });
  }

  abbrev pub stub_rounds : State F → List Answers → List Round
  stub_rounds state answers =
      map (λ (a : Answers). (a, get_metrics parse_float percent atoi_error (stub_http state)))
        answers

  module _ (state : State F)
      (printed : IsPrinted parse_float percent atoi_error print_float state.kv_cache_usage_perc)
      (fits : FitsInt64 state.num_requests_waiting) where
    stub_round-MeetsUsage :
        (spec : Spec) (a : Answers)
        → IsServed a
        → MeetsUsage spec
            (percent state.kv_cache_usage_perc)
            (a, get_metrics parse_float percent atoi_error (stub_http state))
    unfolding get_metrics
    stub_round-MeetsUsage spec a (read, found, written) = (
      read,
      found,
      written,
      _,
      parse-metrics parse_float percent atoi_error print_float state printed fits,
      refl,
    )

    every_round :
        (P : Round → Type 0) (spec : Spec)
        → ((a : Answers)
            → MeetsUsage spec
                (percent state.kv_cache_usage_perc)
                (a, get_metrics parse_float percent atoi_error (stub_http state))
            → P (a, get_metrics parse_float percent atoi_error (stub_http state)))
        → (answers : List Answers) → All IsServed answers
        → All P (stub_rounds state answers)
    every_round P spec step [] served = tt
    every_round P spec step (a ∷ answers) (here, served) =
        (step a (stub_round-MeetsUsage spec a here), every_round P spec step answers served)

    module _ {C : Type 0} (set_status_condition : ℕ → Condition → C → C) (missing : Text) where
      -- The operator scrapes a stub whose state stays as it is, n times, without an error of the API server
      -- but for writes of the status, for a workload whose bounds are in order and whose number of
      -- replicas starts within them: above the upper threshold it has added n replicas, up to the
      -- maximum; otherwise, below the lower one, it has taken n away, down to the minimum; otherwise
      -- the number is as before. The stub's usage is printed so that Go reads it back, and its
      -- number of requests fits Go's int.
      pub reconcile_all-settled :
          (spec : Spec) (answers : List Answers) (c : Cluster C) (replicas : ℕ)
          → IsBand spec
          → HasReplicas spec replicas c
          → All IsServed answers
          → (reconcile_all set_status_condition missing (stub_rounds state answers) c).deployment
            ≡ some
                (some (settled spec (percent state.kv_cache_usage_perc) replicas (length answers)))
      reconcile_all-settled spec answers c replicas band s served =
          let usage = percent state.kv_cache_usage_perc in
          let rounds = stub_rounds state answers in
          elim (Bool-cases (is_pressed usage spec)) [
            | inl pressed ↦
                reconcile_all-pressed set_status_condition missing spec rounds c replicas band s (
                  every_round (IsPressed spec) spec (λ a meets. (usage, meets, pressed)) answers
                    served)
                ∙ ap (λ n. some (some (min (replicas + n) spec.max_replicas)))
                    (length-map answers _)
                ∙ ap (λ n. some (some n))
                    (settled_pressed spec usage replicas (length answers) pressed)
            | inr calm ↦ elim (Bool-cases (is_idle usage spec)) [
              | inl idle ↦
                  reconcile_all-idle set_status_condition missing spec rounds c replicas band s (
                    every_round (IsIdle spec) spec (λ a meets. (usage, meets, calm, idle)) answers
                      served)
                  ∙ ap (λ n. some (some (spec.min_replicas + (replicas - (n + spec.min_replicas)))))
                      (length-map answers _)
                  ∙ ap (λ n. some (some n))
                      (settled_idle spec usage replicas (length answers) calm idle)
              | inr busy ↦
                  reconcile_all-calm set_status_condition missing spec rounds c replicas band s (
                    every_round (IsCalm spec) spec (λ a meets. (usage, meets, calm, busy)) answers
                      served)
                  ∙ ap (λ n. some (some n))
                      (settled_calm spec usage replicas (length answers) calm busy)
            ]
          ]
