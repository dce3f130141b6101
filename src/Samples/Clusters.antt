-- ===== src/Samples/Clusters.antt =====
-- A workload between one and three replicas in a small cluster, and the theorems about the controller
-- there.
use ai_infra_demo.Base.{
  ℕ, ◌+◌, ◌-◌, ◌≤◌, ◌<◌, ◌≡◌, ◌↔◌, ◌⊎◌, refl, true, false, none, some, List, [], ◌∷◌, arith,
}
use ai_infra_demo.Py.Text.{Text, codes}
use ai_infra_demo.Operator.Types.{
  Spec, Condition, Status, WorkloadLifecycle, unset, metrics_unavailable,
}
use ai_infra_demo.Operator.Scaling.{compute_desired_replicas}
use ai_infra_demo.Operator.Scaling.Bounds.{
  IsBand, is_pressed, is_idle, compute_desired_replicas-bounded,
}
use ai_infra_demo.Operator.Scaling.Outside.{compute_desired_replicas_above}
use ai_infra_demo.Operator.Status.{Fallible, value, failed, Cluster, Answers}
use ai_infra_demo.Operator.Reconcile.{Metrics, Round, reconcile, reconcile_all}
use ai_infra_demo.Operator.Reconcile.Replicas.{HasReplicas, IsScaled, reconcile_all-IsScaled}
use ai_infra_demo.Operator.Reconcile.Recovery.{RecordsRecovery, reconcile-recovery}
use ai_infra_demo.Operator.Reconcile.Outage.{unavailable, reconcile_all-outage}
use ai_infra_demo.Operator.Reconcile.Failing.{After}
use ai_infra_demo.Operator.Reconcile.Missing.{not_found, reconcile_all-missing}
use ai_infra_demo.Operator.Types.{target_deployment_not_found}
use ai_infra_demo.Base.{inr}
use ai_infra_demo.Operator.Reconcile.Reports.{Reported, reconcile-Reported}

abbrev pub three_at_most : Spec
three_at_most = record {
  target_deployment = codes "vllm";
  metrics_endpoint = codes "http://stub";
  kv_cache_threshold_percent = 80;
  kv_cache_scale_down_threshold_percent = 30;
  min_replicas = 1;
  max_replicas = 3;
}

pub three_at_most-IsBand : IsBand three_at_most
three_at_most-IsBand = record { min_pos = omega arith; ordered = omega arith; small = omega arith }

compute_desired_replicas-bounded_example :
    let desired = compute_desired_replicas 2 90 three_at_most in
    1 ≤ desired
    × desired ≤ 3
    × ((2 < desired) ↔ ((is_pressed 90 three_at_most ≡ true) × 2 < 3))
    × ((desired < 2)
        ↔ ((is_pressed 90 three_at_most ≡ false) × (is_idle 90 three_at_most ≡ true) × 1 < 2))
    × desired ≤ 2 + 1
    × 2 ≤ desired + 1
compute_desired_replicas-bounded_example =
    compute_desired_replicas-bounded 2 90 three_at_most three_at_most-IsBand (omega arith)
      (omega arith)

compute_desired_replicas_above_example :
    let desired = compute_desired_replicas 5 90 three_at_most in
    ((is_pressed 90 three_at_most ≡ true) × (desired ≡ 3))
    ⊎ ((is_pressed 90 three_at_most ≡ false)
        × (((is_idle 90 three_at_most ≡ true) × (desired ≡ 5 - 1))
            ⊎ ((is_idle 90 three_at_most ≡ false) × (desired ≡ 5))))
compute_desired_replicas_above_example =
    compute_desired_replicas_above 5 90 three_at_most three_at_most-IsBand (omega arith)
      (omega arith)

-- Conditions in a list, the newest first.
abbrev pub put_condition : ℕ → Condition → List Condition → List Condition
put_condition now condition conditions = condition ∷ conditions

abbrev workload : WorkloadLifecycle (List Condition)
workload = record {
  generation = 1;
  spec = three_at_most;
  status = record {
    conditions = [];
    observed_kv_cache_usage_percent = 0;
    desired_replicas = 0;
    last_scale_time = none;
    last_transition_reason = unset;
  };
}

abbrev pub one_replica : Cluster (List Condition)
one_replica = record { workload = some workload; deployment = some (some 1); events = [] }

abbrev pub no_errors : Answers
no_errors = record {
  get_workload = none;
  get_deployment = none;
  update_deployment = none;
  update_status = none;
  now = 7;
}

abbrev refused : Answers
refused = record no_errors { update_deployment = some (codes "conflict") }

abbrev measures : ℕ → Text → Fallible Metrics
measures usage endpoint =
    value (record { kv_cache_usage_percent = usage; num_requests_waiting = 0 })

abbrev timed_out : Text → Fallible Metrics
timed_out endpoint = failed (codes "timeout")

pub one_replica-HasReplicas : HasReplicas three_at_most 1 one_replica
one_replica-HasReplicas = record {
  workload = refl;
  deployment = refl;
  above = omega arith;
  below = omega arith;
}

-- A round that scales up, one whose write is refused, and one without metrics.
abbrev mixed_rounds : List Round
mixed_rounds = (no_errors, measures 90) ∷ (refused, measures 90) ∷ (no_errors, timed_out) ∷ []

reconcile_all-IsScaled_example :
    IsScaled three_at_most (reconcile_all put_condition (codes "missing") mixed_rounds one_replica)
reconcile_all-IsScaled_example =
    reconcile_all-IsScaled put_condition (codes "missing") three_at_most mixed_rounds one_replica
      three_at_most-IsBand (1, one_replica-HasReplicas)

abbrev measured : ℕ → Metrics
measured usage = record { kv_cache_usage_percent = usage; num_requests_waiting = 0 }

reconcile_all-outage_example :
    After metrics_unavailable three_at_most (unavailable (codes "timeout") ∷ []) one_replica (
      reconcile_all put_condition
        (codes "missing")
        ((no_errors, timed_out) ∷ (no_errors, timed_out) ∷ [])
        one_replica)
reconcile_all-outage_example =
    reconcile_all-outage put_condition (codes "missing") workload (no_errors, timed_out)
      ((no_errors, timed_out) ∷ []) one_replica (codes "timeout") refl refl (refl, refl, refl)
      ((codes "timeout", (refl, refl, refl)), tt)

abbrev no_deployment : Cluster (List Condition)
no_deployment = record one_replica { deployment = none }

reconcile_all-missing_example :
    After target_deployment_not_found three_at_most
      (not_found (codes "missing") ∷ [])
      no_deployment
      (reconcile_all put_condition
        (codes "missing")
        ((no_errors, measures 90) ∷ (no_errors, measures 90) ∷ [])
        no_deployment)
reconcile_all-missing_example =
    reconcile_all-missing put_condition (codes "missing") workload (no_errors, measures 90)
      ((no_errors, measures 90) ∷ []) no_deployment (measured 90) (codes "missing") refl refl
      (refl, refl, refl, inr (refl, refl, refl))
      ((measured 90, codes "missing", (refl, refl, refl, inr (refl, refl, refl))), tt)

reconcile-Reported_example :
    Reported 1 90 (reconcile put_condition (codes "missing") no_errors (measures 90) one_replica).0
reconcile-Reported_example =
    reconcile-Reported put_condition (codes "missing") no_errors (measures 90) workload
      (measured 90) 1 one_replica (refl, refl, refl, refl) refl refl refl three_at_most-IsBand
      (omega arith) (omega arith)

-- The workload after an outage.
abbrev unavailable_status : Status (List Condition)
unavailable_status = record {
  conditions = [];
  observed_kv_cache_usage_percent = 0;
  desired_replicas = 0;
  last_scale_time = none;
  last_transition_reason = metrics_unavailable;
}

abbrev out_of_reach : Cluster (List Condition)
out_of_reach = record one_replica {
  workload = some (record workload { status = unavailable_status });
}

reconcile-recovery_example :
    RecordsRecovery out_of_reach
      (reconcile put_condition (codes "missing") no_errors (measures 90) out_of_reach).0
reconcile-recovery_example =
    reconcile-recovery put_condition (codes "missing") three_at_most no_errors (measures 90)
      (measured 90) out_of_reach (record { wl = _; workload = refl; same = refl; reason = refl })
      refl refl
