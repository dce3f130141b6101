-- ===== src/Operator/Reconcile/Recovery.antt =====
-- What is recorded when the metrics endpoint answers again.
use mathlib.Core.Path.{subst}
use mathlib.Core.List.{append_assoc, append-nil}
use ai_infra_demo.Base.{
  ℕ, ◌≤◌, ◌≡◌, refl, sym, ap, ◌∙◌, Bool, true, false, none, some, Option, List, [], ◌∷◌, ◌++◌,
  length, arith, inl, inr, Bool-cases, Option-cases, ◌==◌,
}
use ai_infra_demo.Py.Text.{Text, codes}
use ai_infra_demo.Operator.Types.{
  Spec, Reason, metrics_unavailable, recovered, is_metrics_unavailable, is_not_found, Condition,
  WorkloadLifecycle, EventType, normal, Event,
}
use ai_infra_demo.Operator.Scaling.{compute_desired_replicas}
use ai_infra_demo.Operator.Status.{
  Fallible, value, failed, Cluster, Answers, StatusUpdate, record_status, written,
}
use ai_infra_demo.Operator.Reconcile.{
  Metrics, event_unless, recover, observe_deployment, make_adjustment_if_needed, adjust,
  reconcile_workload, reconcile_found, reconcile,
}
use ai_infra_demo.Operator.Reconcile.Deployment.{reconcile_read}
use ai_infra_demo.Operator.Reconcile.Failing.{HasReason}

-- The event of a recovery of the metrics.
abbrev pub metrics_recovered : Event
metrics_recovered = record {
  type = normal;
  reason = recovered;
  message = codes "recovered from MetricsUnavailable";
}

module _ {C : Type 0} where
  -- At most one event has been recorded.
  AddsOne : Cluster C → Cluster C → Type 0
  AddsOne c d = (more : List Event) × (d.events ≡ c.events ++ more) × length more ≤ 1

  written-events :
      (e : Option Text) (wl : WorkloadLifecycle C) (c : Cluster C)
      → (written e wl c).events ≡ c.events
  written-events none wl c = refl
  written-events (some e) wl c = refl

  event_unless-AddsOne :
      (b : Bool) (type : EventType) (reason : Reason) (message : Text) (c : Cluster C)
      → AddsOne c (event_unless b type reason message c)
  unfolding AddsOne
  event_unless-AddsOne true type reason message c = ([], sym (append-nil c.events), omega arith)
  event_unless-AddsOne false type reason message c = (_, refl, omega arith)

  module _ (set_status_condition : ℕ → Condition → C → C) (wl : WorkloadLifecycle C) where
    record_status-AddsOne :
        (a : Answers) (u : StatusUpdate) (c d : Cluster C)
        → AddsOne c d
        → AddsOne c (record_status set_status_condition a wl u d)
    unfolding AddsOne record_status
    record_status-AddsOne a u c d (more, e, few) = (more, written-events _ _ d ∙ e, few)

    make_adjustment-AddsOne :
        (a : Answers) (current desired usage threshold : ℕ) (c : Cluster C)
        → AddsOne c
            (make_adjustment_if_needed set_status_condition a wl current desired usage threshold
              c).0
    unfolding make_adjustment_if_needed AddsOne
    make_adjustment-AddsOne a current desired usage threshold c =
        elim (Bool-cases (desired == current)) [
          | inl same ↦
              rw same (record_status-AddsOne _ _ c c ([], sym (append-nil c.events), omega arith))
          | inr other ↦ elim (Option-cases a.update_deployment) [
            | inl done ↦ rw (other, done) (record_status-AddsOne _ _ c _ (_, refl, omega arith))
            | inr (x, refused) ↦
                rw (other, refused) (record_status-AddsOne _ _ c _ (event_unless-AddsOne _ _ _ _ c))
          ]
        ]

    adjust-AddsOne :
        (a : Answers) (m : Metrics) (replicas : Fallible ℕ) (c : Cluster C)
        → is_not_found wl.status.last_transition_reason ≡ false
        → AddsOne c (adjust set_status_condition a wl m replicas c).0
    unfolding adjust
    adjust-AddsOne a m (failed e) c calm =
        record_status-AddsOne a _ c _ (event_unless-AddsOne _ _ _ _ c)
    adjust-AddsOne a m (value current) c calm =
        let reason = wl.status.last_transition_reason in
        let usage = m.kv_cache_usage_percent in
        let desired = compute_desired_replicas current usage wl.spec in
        let threshold = wl.spec.kv_cache_threshold_percent in
        subst
          (λ (d : Cluster C).
            AddsOne c
              (make_adjustment_if_needed set_status_condition a wl current desired usage threshold
                d).0)
          (sym (ap (λ b. recover b reason c) calm))
          (make_adjustment-AddsOne a current desired usage threshold c)

  -- The recovery is recorded, and at most one event after it.
  abbrev pub RecordsRecovery : Cluster C → Cluster C → Type 0
  RecordsRecovery c d =
      (more : List Event) × (d.events ≡ c.events ++ (metrics_recovered ∷ more)) × length more ≤ 1

  module _ (set_status_condition : ℕ → Condition → C → C) (missing : Text) where
    recovered_once :
        (a : Answers) (m : Metrics) (wl : WorkloadLifecycle C) (c : Cluster C)
        → wl.status.last_transition_reason ≡ metrics_unavailable
        → RecordsRecovery c (reconcile_workload set_status_condition missing a wl (value m) c).0
    unfolding reconcile_workload AddsOne
    recovered_once a m wl c e =
        let reason = wl.status.last_transition_reason in
        let d = recover (is_metrics_unavailable reason) reason c in
        let (more, adds, few) =
          adjust-AddsOne set_status_condition wl a m (observe_deployment missing a c) d
            (ap is_not_found e) in
        let first : d.events ≡ c.events ++ metrics_recovered ∷ [] =
          ap (λ (r : Reason). (recover (is_metrics_unavailable r) r c).events) e in
        (
          more,
          adds ∙ ap (λ es. es ++ more) first ∙ append_assoc c.events (metrics_recovered ∷ []) more,
          few,
        )

    -- The first round in which the metrics endpoint answers after an outage, whatever else fails in it,
    -- records one recovery, that of the metrics, and at most one event after it.
    pub reconcile-recovery :
        (spec : Spec) (a : Answers) (get_metrics : Text → Fallible Metrics) (m : Metrics)
        (c : Cluster C)
        → HasReason metrics_unavailable spec c
        → a.get_workload ≡ none
        → get_metrics spec.metrics_endpoint ≡ value m
        → RecordsRecovery c (reconcile set_status_condition missing a get_metrics c).0
    unfolding reconcile_found
    reconcile-recovery spec a get_metrics m c u read g =
        subst (RecordsRecovery c)
          (sym (
            reconcile_read set_status_condition missing a get_metrics c read
            ∙ ap (λ o. (reconcile_found set_status_condition missing a get_metrics o c).0)
                u.workload
            ∙ ap (λ x. (reconcile_workload set_status_condition missing a u.wl x c).0)
                (ap (λ (s : Spec). get_metrics s.metrics_endpoint) u.same ∙ g)))
          (recovered_once a m u.wl c u.reason)
