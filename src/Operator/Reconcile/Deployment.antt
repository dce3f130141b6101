-- ===== src/Operator/Reconcile/Deployment.antt =====
-- What a reconcile does to the target Deployment.
use ai_infra_demo.Base.{
  ℕ, ◌≡◌, refl, sym, ap, ◌∙◌, Bool, true, false, Option, none, some, inl, inr, Bool-cases,
  Option-cases, ◌==◌, ==_iff,
}
use ai_infra_demo.Py.Text.{Text}
use ai_infra_demo.Operator.Types.{
  Spec, Reason, is_metrics_unavailable, Condition, WorkloadLifecycle, EventType,
}
use ai_infra_demo.Operator.Scaling.{compute_desired_replicas}
use ai_infra_demo.Operator.Status.{
  Fallible, value, failed, Cluster, Answers, record_status, written,
}
use ai_infra_demo.Operator.Reconcile.{
  Metrics, recover, event_unless, observe_deployment, make_adjustment_if_needed, adjust,
  reconcile_workload, reconcile_found, reconcile,
}

-- A Deployment is written only where the number changes.
abbrev pub scaled : Option Text → ℕ → ℕ → ℕ
scaled none current desired = desired
scaled (some e) current desired = current

-- The number of replicas after a reconcile: the desired one where no read failed and the write did
-- not.
abbrev pub replicas_after : Answers → Fallible Metrics → Spec → ℕ → ℕ
replicas_after a metrics spec replicas = elim a.get_workload [
  | some e ↦ replicas
  | none ↦ elim metrics [
    | failed e ↦ replicas
    | value m ↦ elim a.get_deployment [
      | some e ↦ replicas
      | none ↦
          scaled a.update_deployment replicas
            (compute_desired_replicas replicas m.kv_cache_usage_percent spec)
    ]
  ]
]

replicas_after_read :
    (a : Answers) (m : Metrics) (spec : Spec) (replicas : ℕ)
    → a.get_workload ≡ none
    → a.get_deployment ≡ none
    → replicas_after a (value m) spec replicas
      ≡ scaled a.update_deployment replicas
          (compute_desired_replicas replicas m.kv_cache_usage_percent spec)
replicas_after_read a m spec replicas got all_read = rw (got, all_read) refl

replicas_after_unread :
    (a : Answers) (m : Metrics) (spec : Spec) (replicas : ℕ) (e : Text)
    → a.get_workload ≡ none
    → a.get_deployment ≡ some e
    → replicas_after a (value m) spec replicas ≡ replicas
replicas_after_unread a m spec replicas e got unread = rw (got, unread) refl

scaled-eq :
    (o : Option Text) (current desired : ℕ)
    → (desired == current) ≡ true
    → scaled o current desired ≡ current
scaled-eq none current desired same = (==_iff desired current).0 same
scaled-eq (some e) current desired same = refl

module _ {C : Type 0} where
  pub event_unless-deployment :
      (b : Bool) (type : EventType) (reason : Reason) (message : Text) (c : Cluster C)
      → (event_unless b type reason message c).deployment ≡ c.deployment
  event_unless-deployment true type reason message c = refl
  event_unless-deployment false type reason message c = refl

  written-deployment :
      (e : Option Text) (wl : WorkloadLifecycle C) (c : Cluster C)
      → (written e wl c).deployment ≡ c.deployment
  written-deployment none wl c = refl
  written-deployment (some e) wl c = refl

  pub observe_deployment_found :
      (missing : Text) (a : Answers) (c : Cluster C) (replicas : ℕ)
      → a.get_deployment ≡ none
      → c.deployment ≡ some (some replicas)
      → observe_deployment missing a c ≡ value replicas
  unfolding observe_deployment
  observe_deployment_found missing a c replicas none_failed e = rw (none_failed, e) refl

  observe_deployment-Unread :
      (missing : Text) (a : Answers) (c : Cluster C) (e : Text)
      → a.get_deployment ≡ some e
      → observe_deployment missing a c ≡ failed e
  unfolding observe_deployment
  observe_deployment-Unread missing a c e unread = rw unread refl

  module _ (set_status_condition : ℕ → Condition → C → C) where
    make_adjustment-deployment :
        (a : Answers) (wl : WorkloadLifecycle C) (current desired usage threshold : ℕ)
        (c : Cluster C)
        → c.deployment ≡ some (some current)
        → (make_adjustment_if_needed set_status_condition a wl current desired usage threshold
            c).0.deployment
          ≡ some (some (scaled a.update_deployment current desired))
    unfolding make_adjustment_if_needed record_status
    make_adjustment-deployment a wl current desired usage threshold c e =
        elim (Bool-cases (desired == current)) [
          | inl same ↦
              rw (same, written-deployment, e, scaled-eq a.update_deployment current desired same)
                refl
          | inr other ↦ elim (Option-cases a.update_deployment) [
            | inl none_failed ↦ rw (other, none_failed, written-deployment) refl
            | inr (x, refused) ↦ rw (other, refused, written-deployment, event_unless-deployment) e
          ]
        ]

    adjust-deployment :
        (a : Answers) (wl : WorkloadLifecycle C) (m : Metrics) (replicas : ℕ) (c : Cluster C)
        → c.deployment ≡ some (some replicas)
        → (adjust set_status_condition a wl m (value replicas) c).0.deployment
          ≡ some (
              some (
                scaled a.update_deployment replicas
                  (compute_desired_replicas replicas m.kv_cache_usage_percent wl.spec)))
    unfolding adjust
    adjust-deployment a wl m replicas c e =
        make_adjustment-deployment a wl replicas
          (compute_desired_replicas replicas m.kv_cache_usage_percent wl.spec)
          m.kv_cache_usage_percent wl.spec.kv_cache_threshold_percent _
          (event_unless-deployment _ _ _ _ c ∙ e)

    adjust_failed-deployment :
        (a : Answers) (wl : WorkloadLifecycle C) (m : Metrics) (x : Text) (c : Cluster C)
        → (adjust set_status_condition a wl m (failed x) c).0.deployment ≡ c.deployment
    unfolding adjust record_status
    adjust_failed-deployment a wl m x c =
        written-deployment _ _ _ ∙ event_unless-deployment _ _ _ _ c

    reconcile_workload-deployment :
        (missing : Text) (a : Answers) (wl : WorkloadLifecycle C) (metrics : Fallible Metrics)
        (c : Cluster C) (replicas : ℕ)
        → a.get_workload ≡ none
        → c.deployment ≡ some (some replicas)
        → (reconcile_workload set_status_condition missing a wl metrics c).0.deployment
          ≡ some (some (replicas_after a metrics wl.spec replicas))
    unfolding reconcile_workload record_status
    reconcile_workload-deployment missing a wl (failed x) c replicas got e =
        rw (got, written-deployment, event_unless-deployment) e
    reconcile_workload-deployment missing a wl (value m) c replicas got e =
        let prior_reason = wl.status.last_transition_reason in
        let d = recover (is_metrics_unavailable prior_reason) prior_reason c in
        let kept : d.deployment ≡ some (some replicas) = event_unless-deployment _ _ _ _ c ∙ e in
        elim (Option-cases a.get_deployment) [
          | inl all_read ↦
              ap (λ o. (adjust set_status_condition a wl m o d).0.deployment)
                (observe_deployment_found missing a c replicas all_read e)
              ∙ adjust-deployment a wl m replicas d kept
              ∙ ap (λ n. some (some n))
                  (sym (replicas_after_read a m wl.spec replicas got all_read))
          | inr (x, unread) ↦
              ap (λ o. (adjust set_status_condition a wl m o d).0.deployment)
                (observe_deployment-Unread missing a c x unread)
              ∙ adjust_failed-deployment a wl m x d
              ∙ kept
              ∙ ap (λ n. some (some n))
                  (sym (replicas_after_unread a m wl.spec replicas x got unread))
        ]

    pub reconcile_read :
        (missing : Text) (a : Answers) (get_metrics : Text → Fallible Metrics) (c : Cluster C)
        → a.get_workload ≡ none
        → (reconcile set_status_condition missing a get_metrics c).0
          ≡ (reconcile_found set_status_condition missing a get_metrics c.workload c).0
    unfolding reconcile
    reconcile_read missing a get_metrics c all_read = rw all_read refl

    -- A reconcile leaves the Deployment as it is, or writes the desired number.
    pub reconcile-deployment :
        (missing : Text) (a : Answers) (get_metrics : Text → Fallible Metrics)
        (wl : WorkloadLifecycle C) (c : Cluster C) (replicas : ℕ)
        → c.workload ≡ some wl
        → c.deployment ≡ some (some replicas)
        → (reconcile set_status_condition missing a get_metrics c).0.deployment
          ≡ some (some (replicas_after a (get_metrics wl.spec.metrics_endpoint) wl.spec replicas))
    unfolding reconcile reconcile_found
    reconcile-deployment missing a get_metrics wl c replicas w e =
        elim (Option-cases a.get_workload) [
          | inl all_read ↦
              ap (λ d. d.deployment) (reconcile_read missing a get_metrics c all_read)
              ∙ ap
                  (λ o.
                    (reconcile_found set_status_condition missing a get_metrics o c).0.deployment)
                  w
              ∙ reconcile_workload-deployment missing a wl (get_metrics wl.spec.metrics_endpoint) c
                  replicas all_read e
          | inr (x, unread) ↦ rw unread e
        ]
