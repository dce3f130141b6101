-- ===== src/Operator/Reconcile/Pressure.antt =====
-- What the controller reaches while the usage stays on one side of the band.
use ai_infra_demo.Base.{
  ℕ, ◌+◌, ◌-◌, ◌≡◌, refl, ap, ◌∙◌, true, false, none, some, List, [], ◌∷◌, All, length, arith, min,
}
use ai_infra_demo.Py.Text.{Text}
use ai_infra_demo.Operator.Types.{Spec, Condition}
use ai_infra_demo.Operator.Scaling.{compute_desired_replicas}
use ai_infra_demo.Operator.Scaling.Bounds.{
  IsBand, is_pressed, is_idle, desired_pressed, desired_idle, desired_calm,
}
use ai_infra_demo.Operator.Status.{Fallible, value, Cluster, Answers}
use ai_infra_demo.Operator.Reconcile.{Metrics, Round, reconcile_all}
use ai_infra_demo.Operator.Reconcile.Deployment.{replicas_after}
use ai_infra_demo.Operator.Reconcile.Replicas.{HasReplicas, reconcile-HasReplicas}

-- A round without an error, but for the write of the status, at this usage.
abbrev pub MeetsUsage : Spec → ℕ → Round → Type 0
MeetsUsage spec usage (a, get_metrics) =
    (a.get_workload ≡ none)
    × (a.get_deployment ≡ none)
    × (a.update_deployment ≡ none)
    × (m : Metrics) × (get_metrics spec.metrics_endpoint ≡ value m)
    × (m.kv_cache_usage_percent ≡ usage)

abbrev pub IsPressed : Spec → Round → Type 0
IsPressed spec r = (usage : ℕ) × MeetsUsage spec usage r × (is_pressed usage spec ≡ true)

abbrev pub IsIdle : Spec → Round → Type 0
IsIdle spec r =
    (usage : ℕ) × MeetsUsage spec usage r
    × (is_pressed usage spec ≡ false)
    × (is_idle usage spec ≡ true)

abbrev pub IsCalm : Spec → Round → Type 0
IsCalm spec r =
    (usage : ℕ) × MeetsUsage spec usage r
    × (is_pressed usage spec ≡ false)
    × (is_idle usage spec ≡ false)

replicas_after-MeetsUsage :
    (spec : Spec) (usage : ℕ) (a : Answers) (get_metrics : Text → Fallible Metrics) (replicas : ℕ)
    → MeetsUsage spec usage (a, get_metrics)
    → replicas_after a (get_metrics spec.metrics_endpoint) spec replicas
      ≡ compute_desired_replicas replicas usage spec
replicas_after-MeetsUsage spec usage a get_metrics replicas (read, found, written, m, e, u) =
    rw (read, found, written, e) (ap (λ n. compute_desired_replicas replicas n spec) u)

module _ {C : Type 0} (set_status_condition : ℕ → Condition → C → C) (missing : Text) where
  -- While every round is free of errors, but for writes of the status, and measures a usage above the
  -- upper threshold, each adds a replica up to the maximum, which is reached and kept.
  pub reconcile_all-pressed :
      (spec : Spec) (rounds : List Round) (c : Cluster C) (replicas : ℕ)
      → IsBand spec
      → HasReplicas spec replicas c
      → All (IsPressed spec) rounds
      → (reconcile_all set_status_condition missing rounds c).deployment
        ≡ some (some (min (replicas + length rounds) spec.max_replicas))
  unfolding reconcile_all
  reconcile_all-pressed spec [] c replicas band s all =
      s.deployment ∙ ap (λ n. some (some n)) (omega (arith, s.below))
  reconcile_all-pressed spec ((a, get_metrics) ∷ rounds) c replicas band s
        ((usage, meets, pressed), all) =
      reconcile_all-pressed spec rounds _ _ band
        (reconcile-HasReplicas set_status_condition missing spec replicas a get_metrics c band s)
        all
      ∙ ap (λ n. some (some n))
          (rw
            (
              replicas_after-MeetsUsage spec usage a get_metrics replicas meets,
              desired_pressed replicas usage spec band s.above s.below pressed,
            )
            (ground (arith, s.above, s.below)))

  -- While every round is free of errors, but for writes of the status, and measures a usage not above
  -- the upper threshold, but below the lower one, each takes a replica away down to the minimum,
  -- which is reached and kept.
  pub reconcile_all-idle :
      (spec : Spec) (rounds : List Round) (c : Cluster C) (replicas : ℕ)
      → IsBand spec
      → HasReplicas spec replicas c
      → All (IsIdle spec) rounds
      → (reconcile_all set_status_condition missing rounds c).deployment
        ≡ some (some (spec.min_replicas + (replicas - (length rounds + spec.min_replicas))))
  unfolding reconcile_all
  reconcile_all-idle spec [] c replicas band s all =
      s.deployment ∙ ap (λ n. some (some n)) (omega (arith, s.above))
  reconcile_all-idle spec ((a, get_metrics) ∷ rounds) c replicas band s
        ((usage, meets, calm, idle), all) =
      reconcile_all-idle spec rounds _ _ band
        (reconcile-HasReplicas set_status_condition missing spec replicas a get_metrics c band s)
        all
      ∙ ap (λ n. some (some n))
          (rw
            (
              replicas_after-MeetsUsage spec usage a get_metrics replicas meets,
              desired_idle replicas usage spec band s.above s.below calm idle,
            )
            (ground (arith, s.above, s.below)))

  -- While the usage is within the band, the Deployment is left as it is.
  pub reconcile_all-calm :
      (spec : Spec) (rounds : List Round) (c : Cluster C) (replicas : ℕ)
      → IsBand spec
      → HasReplicas spec replicas c
      → All (IsCalm spec) rounds
      → (reconcile_all set_status_condition missing rounds c).deployment ≡ some (some replicas)
  unfolding reconcile_all
  reconcile_all-calm spec [] c replicas band s all = s.deployment
  reconcile_all-calm spec ((a, get_metrics) ∷ rounds) c replicas band s
        ((usage, meets, calm, busy), all) =
      reconcile_all-calm spec rounds _ _ band
        (reconcile-HasReplicas set_status_condition missing spec replicas a get_metrics c band s)
        all
      ∙ ap (λ n. some (some n))
          (rw
            (
              replicas_after-MeetsUsage spec usage a get_metrics replicas meets,
              desired_calm replicas usage spec band s.above s.below calm busy,
            )
            refl)
