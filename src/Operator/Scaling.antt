-- ===== src/Operator/Scaling.antt =====
-- `computeDesiredReplicas` of workloadlifecycle_controller.go.
pub mod Bounds
pub mod Outside
use ai_infra_demo.Base.{ℕ, if◌then◌else◌}
use ai_infra_demo.Operator.Int32.{increment, decrement, less}
use ai_infra_demo.Operator.Types.{Spec}

unfoldable pub compute_desired_replicas : ℕ → ℕ → Spec → ℕ
compute_desired_replicas current_replicas kv_cache_usage_percent spec =
    if less spec.kv_cache_threshold_percent kv_cache_usage_percent
    then (let desired = increment current_replicas in
        if less spec.max_replicas desired then spec.max_replicas else desired)
    else if less kv_cache_usage_percent spec.kv_cache_scale_down_threshold_percent
    then (let desired = decrement current_replicas in
        if less desired spec.min_replicas then spec.min_replicas else desired)
    else current_replicas
