-- ===== src/Operator/Reconcile/Reports.antt =====
-- What the status says after a reconcile that meets no error.
use mathlib.Core.Path.{subst}
use ai_infra_demo.Base.{
  ℕ, ◌≤◌, ◌<◌, ◌≡◌, ◌≢◌, ◌↔◌, refl, sym, ap, ◌∙◌, none, some, arith, inl, inr, Bool-cases, ltb,
  ◌==◌, ==_iff, if◌then◌else◌,
}
use ai_infra_demo.Py.Text.{Text}
use ai_infra_demo.Operator.Int32.{sign_bit, less, less_nonnegative}
use ai_infra_demo.Operator.Types.{
  Reason, holding, scaled_up, scaled_down, is_metrics_unavailable, is_not_found, Condition,
  WorkloadLifecycle,
}
use ai_infra_demo.Operator.Scaling.{compute_desired_replicas}
use ai_infra_demo.Operator.Scaling.Bounds.{IsBand, compute_desired_replicas_within}
use ai_infra_demo.Operator.Status.{Fallible, value, Cluster, Answers, record_status, updated}
use ai_infra_demo.Operator.Reconcile.{
  Metrics, recover, make_adjustment_if_needed, adjust, reconcile_workload, reconcile_found,
  reconcile,
}
use ai_infra_demo.Operator.Reconcile.Deployment.{
  reconcile_read, observe_deployment_found, event_unless-deployment,
}

abbrev pub IsHealthy : Answers → Type 0
IsHealthy a =
    (a.get_workload ≡ none)
    × (a.get_deployment ≡ none)
    × (a.update_deployment ≡ none)
    × (a.update_status ≡ none)

-- The reason for a number of replicas after another.
abbrev reason_for : ℕ → ℕ → Reason
reason_for current desired =
    if desired == current then holding else if ltb desired current then scaled_down else scaled_up

-- The reason tells what happened to the number.
abbrev pub Tells : ℕ → ℕ → Reason → Type 0
Tells current desired reason =
    ((reason ≡ holding) ↔ (desired ≡ current))
    × ((reason ≡ scaled_up) ↔ (current < desired))
    × ((reason ≡ scaled_down) ↔ (desired < current))

holding-ne-up : holding ≢ scaled_up
holding-ne-up e = cc

holding-ne-down : holding ≢ scaled_down
holding-ne-down e = cc

down-ne-up : scaled_down ≢ scaled_up
down-ne-up e = cc

reason_for-Tells : (current desired : ℕ) → Tells current desired (reason_for current desired)
reason_for-Tells current desired = elim (Bool-cases (desired == current)) [
  | inl same ↦ rw same (
    (λ e. ground arith, λ e. refl),
    (λ e. absurd (holding-ne-up e), λ h. absurd (ground arith)),
    (λ e. absurd (holding-ne-down e), λ h. absurd (ground arith)),
  )
  | inr other ↦ elim (Bool-cases (ltb desired current)) [
    | inl down ↦
        rw (other, down)
          (
            (λ e. absurd (holding-ne-down (sym e)), λ h. absurd (ground arith)),
            (λ e. absurd (down-ne-up e), λ h. absurd (ground arith)),
            (λ e. ground arith, λ h. refl),
          )
    | inr up ↦
        rw (other, up)
          (
            (λ e. absurd (holding-ne-up (sym e)), λ h. absurd (ground arith)),
            (λ e. ground arith, λ h. refl),
            (λ e. absurd (down-ne-up (sym e)), λ h. absurd (ground arith)),
          )
  ]
]

module _ {C : Type 0} where
  -- The status and the Deployment after a change from one number to another.
  pub record Reported (current usage : ℕ) (c : Cluster C) : Type 0 where
    pub wl : WorkloadLifecycle C
    pub workload : c.workload ≡ some wl
    pub deployment : c.deployment ≡ some (some wl.status.desired_replicas)
    pub observed : wl.status.observed_kv_cache_usage_percent ≡ usage
    pub tells : Tells current wl.status.desired_replicas wl.status.last_transition_reason

module _ {C : Type 0} (set_status_condition : ℕ → Condition → C → C) (missing : Text) where
  make_adjustment-Reported :
      (a : Answers) (wl : WorkloadLifecycle C) (current desired usage threshold : ℕ) (c : Cluster C)
      → a.update_deployment ≡ none
      → a.update_status ≡ none
      → c.deployment ≡ some (some current)
      → current < sign_bit
      → desired < sign_bit
      → Reported current usage
          (make_adjustment_if_needed set_status_condition a wl current desired usage threshold c).0
  unfolding make_adjustment_if_needed record_status updated
  make_adjustment-Reported a wl current desired usage threshold c done kept e small still =
      let t = reason_for-Tells current desired in
      elim (Bool-cases (desired == current)) [
        | inl same ↦
            let is_holding : reason_for current desired ≡ holding = rw same refl in
            rw (same, kept)
              (record {
                wl = _;
                workload = refl;
                deployment = e ∙ ap (λ n. some (some n)) (sym ((==_iff desired current).0 same));
                observed = refl;
                tells = subst (Tells current desired) is_holding t;
              })
        | inr other ↦
            let is_scaled : reason_for current desired
                ≡ (if less desired current then scaled_down else scaled_up) =
              rw (other, less_nonnegative desired current still small) refl in
            rw (other, done, kept)
              (record {
                wl = _;
                workload = refl;
                deployment = refl;
                observed = refl;
                tells = subst (Tells current desired) is_scaled t;
              })
      ]

  -- A reconcile that meets no error, with a number of replicas within the bounds: afterwards the status
  -- names the number that the Deployment has and the usage that was measured, and its reason tells
  -- whether the number was held, went up or went down.
  pub reconcile-Reported :
      (a : Answers) (get_metrics : Text → Fallible Metrics) (wl : WorkloadLifecycle C) (m : Metrics)
      (current : ℕ) (c : Cluster C)
      → IsHealthy a
      → get_metrics wl.spec.metrics_endpoint ≡ value m
      → c.workload ≡ some wl
      → c.deployment ≡ some (some current)
      → IsBand wl.spec
      → wl.spec.min_replicas ≤ current
      → current ≤ wl.spec.max_replicas
      → Reported current m.kv_cache_usage_percent
          (reconcile set_status_condition missing a get_metrics c).0
  unfolding reconcile_found reconcile_workload adjust
  reconcile-Reported a get_metrics wl m current c (read, found, done, kept) g w e band lo hi =
      let reason = wl.status.last_transition_reason in
      let usage = m.kv_cache_usage_percent in
      let d = recover (is_metrics_unavailable reason) reason c in
      let (_, small) = compute_desired_replicas_within current usage wl.spec band lo hi in
      subst (Reported current usage)
        (sym (
          reconcile_read set_status_condition missing a get_metrics c read
          ∙ ap (λ o. (reconcile_found set_status_condition missing a get_metrics o c).0) w
          ∙ ap (λ x. (reconcile_workload set_status_condition missing a wl x c).0) g
          ∙ ap (λ o. (adjust set_status_condition a wl m o d).0)
              (observe_deployment_found missing a c current found e)))
        (make_adjustment-Reported a wl current (compute_desired_replicas current usage wl.spec)
          usage wl.spec.kv_cache_threshold_percent (recover (is_not_found reason) reason d) done
          kept (event_unless-deployment _ _ _ _ d ∙ event_unless-deployment _ _ _ _ c ∙ e)
          (omega (arith, band.small)) (omega (arith, band.small, small)))
