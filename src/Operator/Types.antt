-- ===== src/Operator/Types.antt =====
-- go-operator/api/v1alpha1/workloadlifecycle_types.go, with what the controller reads and writes
-- besides: the Deployment's replicas and the events.
use ai_infra_demo.Base.{ℕ, Bool, true, false, Option}
use ai_infra_demo.Py.Text.{Text, codes}

pub record Spec : Type 0 where
  pub target_deployment : Text
  pub metrics_endpoint : Text
  pub kv_cache_threshold_percent : ℕ
  pub kv_cache_scale_down_threshold_percent : ℕ
  pub min_replicas : ℕ
  pub max_replicas : ℕ

-- The strings of `LastTransitionReason`, the condition reasons and the event reasons.
pub data Reason : Type 0 where
  unset metrics_unavailable target_deployment_not_found recovered scaled_up scaled_down scale_failed
        holding :
      Reason

abbrev pub reason_text : Reason → Text
reason_text unset = codes ""
reason_text metrics_unavailable = codes "MetricsUnavailable"
reason_text target_deployment_not_found = codes "TargetDeploymentNotFound"
reason_text recovered = codes "Recovered"
reason_text scaled_up = codes "ScaledUp"
reason_text scaled_down = codes "ScaledDown"
reason_text scale_failed = codes "ScaleFailed"
reason_text holding = codes "Holding"

-- The comparisons that the code makes.
abbrev pub is_metrics_unavailable : Reason → Bool
is_metrics_unavailable metrics_unavailable = true
is_metrics_unavailable _ = false

abbrev pub is_not_found : Reason → Bool
is_not_found target_deployment_not_found = true
is_not_found _ = false

abbrev pub is_scale_failed : Reason → Bool
is_scale_failed scale_failed = true
is_scale_failed _ = false

abbrev pub is_scaled_down : Reason → Bool
is_scaled_down scaled_down = true
is_scaled_down _ = false

pub data ConditionType : Type 0 where
  available degraded : ConditionType

-- `metav1.Condition`, as the controller fills it in.
pub record Condition : Type 0 where
  pub type : ConditionType
  pub status : Bool
  pub reason : Reason
  pub message : Text
  pub observed_generation : ℕ

-- `Conditions` is the value of a library type `C`.
pub record Status (C : Type 0) : Type 0 where
  pub conditions : C
  pub observed_kv_cache_usage_percent : ℕ
  pub desired_replicas : ℕ
  pub last_scale_time : Option ℕ
  pub last_transition_reason : Reason

pub record WorkloadLifecycle (C : Type 0) : Type 0 where
  pub generation : ℕ
  pub spec : Spec
  pub status : Status C

pub data EventType : Type 0 where
  normal warning : EventType

pub record Event : Type 0 where
  pub type : EventType
  pub reason : Reason
  pub message : Text
