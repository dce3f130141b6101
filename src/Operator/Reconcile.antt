-- ===== src/Operator/Reconcile.antt =====
-- `Reconcile`, `observeDeployment` and `makeAdjustmentIfNeeded` of workloadlifecycle_controller.go.
pub mod Deployment
pub mod Replicas
pub mod Pressure
pub mod Failing
pub mod Outage
pub mod Missing
pub mod Reports
pub mod Recovery
use ai_infra_demo.Base.{
  ℕ, Bool, true, false, not, Option, none, some, List, [], ◌∷◌, ◌++◌, ◌==◌, if◌then◌else◌,
}
use ai_infra_demo.Py.Text.{Text, codes}
use ai_infra_demo.Operator.Int32.{less, print_int32}
use ai_infra_demo.Operator.Types.{
  Spec, Reason, metrics_unavailable, target_deployment_not_found, recovered, scaled_up, scaled_down,
  scale_failed, holding, reason_text, is_metrics_unavailable, is_not_found, is_scale_failed,
  is_scaled_down, Condition, WorkloadLifecycle, EventType, normal, warning, Event,
}
use ai_infra_demo.Operator.Scaling.{compute_desired_replicas}
use ai_infra_demo.Operator.Status.{Fallible, value, failed, Cluster, Answers, record_status}

pub record Metrics : Type 0 where
  pub kv_cache_usage_percent : ℕ
  pub num_requests_waiting : ℕ

-- `ctrl.Result` in seconds, and the error beside it.
pub record Outcome : Type 0 where
  pub requeue_after : Option ℕ
  pub error : Option Text

abbrev pub again : Option Text → Outcome
again error = record { requeue_after = some 15; error = error }

-- `r.Recorder.Event(…)`
abbrev pub add_event : {C : Type 0} → EventType → Reason → Text → Cluster C → Cluster C
add_event type reason message c = record c {
  events = c.events ++ record { type = type; reason = reason; message = message } ∷ [];
}

abbrev pub event_unless : {C : Type 0} → Bool → EventType → Reason → Text → Cluster C → Cluster C
event_unless seen type reason message c = if seen then c else add_event type reason message c

-- The event of a recovery from the reason before.
abbrev pub recover : {C : Type 0} → Bool → Reason → Cluster C → Cluster C
recover was_failing prior_reason c =
    event_unless (not was_failing) normal recovered
      (codes "recovered from " ++ reason_text prior_reason) c

-- `Scaled %s from %d to %d replicas (KV cache %d%% vs threshold %d%%)`
unfoldable pub scaled_message : Text → ℕ → ℕ → ℕ → ℕ → Text
scaled_message target current_replicas desired_replicas usage threshold =
    codes "Scaled "
    ++ (target
        ++ (codes " from "
            ++ (print_int32 current_replicas
                ++ (codes " to "
                    ++ (print_int32 desired_replicas
                        ++ (codes " replicas (KV cache "
                            ++ (print_int32 usage
                                ++ (codes "% vs threshold "
                                    ++ (print_int32 threshold ++ codes "%)")))))))))

-- `observeDeployment`: one replica where the Deployment names no number. `missing` is the text of the
-- error for a Deployment that does not exist.
unfoldable pub observe_deployment : {C : Type 0} → Text → Answers → Cluster C → Fallible ℕ
observe_deployment missing a c = elim a.get_deployment [
  | some e ↦ failed e
  | none ↦ elim c.deployment [
    | none ↦ failed missing
    | some none ↦ value 1
    | some (some replicas) ↦ value replicas
  ]
]

-- What one reconcile meets.
abbrev pub Round : Type 0
Round = Answers × (Text → Fallible Metrics)

module _ {C : Type 0} (set_status_condition : ℕ → Condition → C → C) where
  -- `makeAdjustmentIfNeeded`, with the error that it returns.
  unfoldable pub make_adjustment_if_needed :
      Answers → WorkloadLifecycle C → ℕ → ℕ → ℕ → ℕ → Cluster C → Cluster C × Option Text
  make_adjustment_if_needed a wl current_replicas desired_replicas usage threshold_percent c =
      let prior_reason = wl.status.last_transition_reason in
      if desired_replicas == current_replicas
      then (
        record_status set_status_condition a wl
            (record {
              reason = holding;
              available_status = true;
              degraded_status = false;
              message = [];
              observed = some usage;
              desired = some desired_replicas;
              scaled_now = false;
            })
            c,
        none,
      )
      else (let reason =
            if less desired_replicas current_replicas then scaled_down else scaled_up in
          elim a.update_deployment [
            | some e ↦ (
              record_status set_status_condition a wl
                  (record {
                    reason = scale_failed;
                    available_status = true;
                    degraded_status = true;
                    message = e;
                    observed = some usage;
                    desired = some desired_replicas;
                    scaled_now = false;
                  })
                  (event_unless (is_scale_failed prior_reason) warning scale_failed e c),
              some e,
            )
            | none ↦
                let applied_threshold =
                  if is_scaled_down reason
                  then wl.spec.kv_cache_scale_down_threshold_percent
                  else threshold_percent in
                (
                  record_status set_status_condition a wl
                      (record {
                        reason = reason;
                        available_status = true;
                        degraded_status = false;
                        message = [];
                        observed = some usage;
                        desired = some desired_replicas;
                        scaled_now = true;
                      })
                      (add_event normal reason
                        (scaled_message wl.spec.target_deployment current_replicas desired_replicas
                          usage applied_threshold)
                        (record c { deployment = some (some desired_replicas) })),
                  none,
                )
          ])

  -- From `observeDeployment` on.
  unfoldable pub adjust :
      Answers → WorkloadLifecycle C → Metrics → Fallible ℕ → Cluster C → Cluster C × Outcome
  unfolding make_adjustment_if_needed
  adjust a wl metrics (failed e) c = (
    record_status set_status_condition a wl
        (record {
          reason = target_deployment_not_found;
          available_status = false;
          degraded_status = true;
          message = e;
          observed = some metrics.kv_cache_usage_percent;
          desired = none;
          scaled_now = false;
        })
        (event_unless (is_not_found wl.status.last_transition_reason) warning
          target_deployment_not_found e c),
    again none,
  )
  adjust a wl metrics (value current_replicas) c =
      let prior_reason = wl.status.last_transition_reason in
      let usage = metrics.kv_cache_usage_percent in
      let desired_replicas = compute_desired_replicas current_replicas usage wl.spec in
      let (d, err) =
        make_adjustment_if_needed a wl current_replicas desired_replicas usage
          wl.spec.kv_cache_threshold_percent (recover (is_not_found prior_reason) prior_reason c) in
      (d, again err)

  -- From `observeMetrics` on.
  unfoldable pub reconcile_workload :
      Text → Answers → WorkloadLifecycle C → Fallible Metrics → Cluster C → Cluster C × Outcome
  unfolding adjust observe_deployment
  reconcile_workload missing a wl (failed e) c = (
    record_status set_status_condition a wl
        (record {
          reason = metrics_unavailable;
          available_status = false;
          degraded_status = true;
          message = e;
          observed = none;
          desired = none;
          scaled_now = false;
        })
        (event_unless (is_metrics_unavailable wl.status.last_transition_reason) warning
          metrics_unavailable e c),
    again none,
  )
  reconcile_workload missing a wl (value metrics) c =
      let prior_reason = wl.status.last_transition_reason in
      adjust a wl metrics (observe_deployment missing a c)
        (recover (is_metrics_unavailable prior_reason) prior_reason c)

  -- From the object that `r.Get` gave. A workload that does not exist is no error.
  unfoldable pub reconcile_found :
      Text
      → Answers
      → (Text → Fallible Metrics)
      → Option (WorkloadLifecycle C)
      → Cluster C
      → Cluster C × Outcome
  unfolding reconcile_workload
  reconcile_found missing a get_metrics none c = (c, record { requeue_after = none; error = none })
  reconcile_found missing a get_metrics (some wl) c =
      reconcile_workload missing a wl (get_metrics wl.spec.metrics_endpoint) c

  -- `Reconcile`. What the metrics endpoint gives depends on the endpoint that the spec names.
  unfoldable pub reconcile :
      Text → Answers → (Text → Fallible Metrics) → Cluster C → Cluster C × Outcome
  unfolding reconcile_found
  reconcile missing a get_metrics c = elim a.get_workload [
    | some e ↦ (c, record { requeue_after = none; error = some e })
    | none ↦ reconcile_found missing a get_metrics c.workload c
  ]

  -- Reconciles one after the other.
  unfoldable pub reconcile_all : Text → List Round → Cluster C → Cluster C
  unfolding reconcile
  reconcile_all missing [] c = c
  reconcile_all missing ((a, get_metrics) ∷ rounds) c =
      reconcile_all missing rounds (reconcile missing a get_metrics c).0
