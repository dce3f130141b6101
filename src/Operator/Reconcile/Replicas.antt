-- ===== src/Operator/Reconcile/Replicas.antt =====
-- The spec is left alone, and the number of replicas stays within its bounds.
use mathlib.Core.Option
use mathlib.Core.Path.{subst}
use ai_infra_demo.Base.{
  ℕ, ◌≤◌, ◌≡◌, refl, ap, Bool, true, false, Option, none, some, List, [], ◌∷◌, inl, inr, Bool-cases,
  Option-cases, ◌==◌,
}
use ai_infra_demo.Py.Text.{Text}
use ai_infra_demo.Operator.Types.{Spec, Reason, Condition, WorkloadLifecycle, EventType}
use ai_infra_demo.Operator.Scaling.Bounds.{IsBand, compute_desired_replicas_within}
use ai_infra_demo.Operator.Status.{
  Fallible, value, failed, Cluster, Answers, StatusUpdate, record_status, updated, written,
}
use ai_infra_demo.Operator.Reconcile.{
  Metrics, event_unless, make_adjustment_if_needed, adjust, reconcile_workload, reconcile_found,
  reconcile, Round, reconcile_all,
}
use ai_infra_demo.Operator.Reconcile.Deployment.{replicas_after, reconcile-deployment}

-- The number of replicas after a reconcile is within the bounds if the one before was.
replicas_after-bounded :
    (a : Answers) (metrics : Fallible Metrics) (spec : Spec) (replicas : ℕ)
    → IsBand spec
    → spec.min_replicas ≤ replicas
    → replicas ≤ spec.max_replicas
    → spec.min_replicas ≤ replicas_after a metrics spec replicas
      × replicas_after a metrics spec replicas ≤ spec.max_replicas
replicas_after-bounded a (failed e) spec replicas band lo hi = elim (Option-cases a.get_workload) [
  | inl read ↦ rw read (lo, hi)
  | inr (x, unread) ↦ rw unread (lo, hi)
]
replicas_after-bounded a (value m) spec replicas band lo hi = elim (Option-cases a.get_workload) [
  | inl read ↦ elim (Option-cases a.get_deployment) [
    | inl found ↦ elim (Option-cases a.update_deployment) [
      | inl done ↦
          rw (read, found, done)
            (compute_desired_replicas_within replicas m.kv_cache_usage_percent spec band lo hi)
      | inr (x, refused) ↦ rw (read, found, refused) (lo, hi)
    ]
    | inr (x, unread) ↦ rw (read, unread) (lo, hi)
  ]
  | inr (x, unread) ↦ rw unread (lo, hi)
]

some-injective : {A : Type 0} (x y : A) → some x ≡ some y → x ≡ y
some-injective x y e = cc

module _ {C : Type 0} where
  -- A workload with this spec.
  abbrev pub HasSpec : Spec → Option (WorkloadLifecycle C) → Type 0
  HasSpec spec o = Option.map (λ (wl : WorkloadLifecycle C). wl.spec) o ≡ some spec

  event_unless-HasSpec :
      (spec : Spec) (b : Bool) (type : EventType) (reason : Reason) (message : Text) (c : Cluster C)
      → HasSpec spec c.workload
      → HasSpec spec (event_unless b type reason message c).workload
  event_unless-HasSpec spec true type reason message c h = h
  event_unless-HasSpec spec false type reason message c h = h

  -- A workload with this spec, and this number of replicas, within its bounds.
  pub record HasReplicas (spec : Spec) (replicas : ℕ) (c : Cluster C) : Type 0 where
    pub workload : HasSpec spec c.workload
    pub deployment : c.deployment ≡ some (some replicas)
    pub above : spec.min_replicas ≤ replicas
    pub below : replicas ≤ spec.max_replicas

  abbrev pub IsScaled : Spec → Cluster C → Type 0
  IsScaled spec c = (replicas : ℕ) × HasReplicas spec replicas c

  module _ (set_status_condition : ℕ → Condition → C → C) (spec : Spec) (wl : WorkloadLifecycle C)
      (same : wl.spec ≡ spec) where
    record_status-HasSpec :
        (a : Answers) (u : StatusUpdate) (c : Cluster C)
        → HasSpec spec c.workload
        → HasSpec spec (record_status set_status_condition a wl u c).workload
    unfolding record_status updated
    record_status-HasSpec a u c h = written_workload a.update_status
      where
        written_workload :
            (e : Option Text)
            → HasSpec spec (written e (updated set_status_condition a wl u) c).workload
        written_workload none = ap some same
        written_workload (some e) = h

    make_adjustment-HasSpec :
        (a : Answers) (current desired usage threshold : ℕ) (c : Cluster C)
        → HasSpec spec c.workload
        → HasSpec spec
            (make_adjustment_if_needed set_status_condition a wl current desired usage threshold
              c).0.workload
    unfolding make_adjustment_if_needed
    make_adjustment-HasSpec a current desired usage threshold c h =
        elim (Bool-cases (desired == current)) [
          | inl equal ↦ rw equal (record_status-HasSpec _ _ c h)
          | inr other ↦ elim (Option-cases a.update_deployment) [
            | inl done ↦ rw (other, done) (record_status-HasSpec _ _ _ h)
            | inr (x, refused) ↦
                rw (other, refused)
                  (record_status-HasSpec _ _ _ (event_unless-HasSpec spec _ _ _ _ c h))
          ]
        ]

    adjust-HasSpec :
        (a : Answers) (m : Metrics) (replicas : Fallible ℕ) (c : Cluster C)
        → HasSpec spec c.workload
        → HasSpec spec (adjust set_status_condition a wl m replicas c).0.workload
    unfolding adjust
    adjust-HasSpec a m (failed e) c h =
        record_status-HasSpec a _ _ (event_unless-HasSpec spec _ _ _ _ c h)
    adjust-HasSpec a m (value current) c h =
        make_adjustment-HasSpec a _ _ _ _ _ (event_unless-HasSpec spec _ _ _ _ c h)

    reconcile_workload-HasSpec :
        (missing : Text) (a : Answers) (metrics : Fallible Metrics) (c : Cluster C)
        → HasSpec spec c.workload
        → HasSpec spec (reconcile_workload set_status_condition missing a wl metrics c).0.workload
    unfolding reconcile_workload
    reconcile_workload-HasSpec missing a (failed e) c h =
        record_status-HasSpec a _ _ (event_unless-HasSpec spec _ _ _ _ c h)
    reconcile_workload-HasSpec missing a (value m) c h =
        adjust-HasSpec a m _ _ (event_unless-HasSpec spec _ _ _ _ c h)

  module _ (set_status_condition : ℕ → Condition → C → C) (missing : Text) where
    found-HasSpec :
        (spec : Spec) (a : Answers) (get_metrics : Text → Fallible Metrics) (c : Cluster C)
        (o : Option (WorkloadLifecycle C))
        → HasSpec spec o
        → HasSpec spec c.workload
        → HasSpec spec (reconcile_found set_status_condition missing a get_metrics o c).0.workload
    unfolding reconcile_found
    found-HasSpec spec a get_metrics c none g h = h
    found-HasSpec spec a get_metrics c (some wl) g h =
        reconcile_workload-HasSpec set_status_condition spec wl (some-injective wl.spec spec g)
          missing a _ c h

    reconcile-HasSpec :
        (spec : Spec) (a : Answers) (get_metrics : Text → Fallible Metrics) (c : Cluster C)
        → HasSpec spec c.workload
        → HasSpec spec (reconcile set_status_condition missing a get_metrics c).0.workload
    unfolding reconcile
    reconcile-HasSpec spec a get_metrics c h = elim (Option-cases a.get_workload) [
      | inl read ↦ rw read (found-HasSpec spec _ get_metrics c c.workload h h)
      | inr (x, unread) ↦ rw unread h
    ]

    HasSpec_cases :
        (spec : Spec) (o : Option (WorkloadLifecycle C))
        → HasSpec spec o
        → (wl : WorkloadLifecycle C) × (o ≡ some wl) × (wl.spec ≡ spec)
    HasSpec_cases spec none h = cc
    HasSpec_cases spec (some wl) h = (wl, refl, some-injective wl.spec spec h)

    -- The Deployment of a workload with this spec after a reconcile.
    reconcile_spec-deployment :
        (spec : Spec) (a : Answers) (get_metrics : Text → Fallible Metrics) (c : Cluster C)
        (replicas : ℕ)
        → HasSpec spec c.workload
        → c.deployment ≡ some (some replicas)
        → (reconcile set_status_condition missing a get_metrics c).0.deployment
          ≡ some (some (replicas_after a (get_metrics spec.metrics_endpoint) spec replicas))
    reconcile_spec-deployment spec a get_metrics c replicas h e =
        let (wl, w, same) = HasSpec_cases spec c.workload h in
        subst
          (λ s.
            (reconcile set_status_condition missing a get_metrics c).0.deployment
            ≡ some (some (replicas_after a (get_metrics s.metrics_endpoint) s replicas)))
          same (reconcile-deployment set_status_condition missing a get_metrics wl c replicas w e)

    pub reconcile-HasReplicas :
        (spec : Spec) (replicas : ℕ) (a : Answers) (get_metrics : Text → Fallible Metrics)
        (c : Cluster C)
        → IsBand spec
        → HasReplicas spec replicas c
        → HasReplicas spec
            (replicas_after a (get_metrics spec.metrics_endpoint) spec replicas)
            (reconcile set_status_condition missing a get_metrics c).0
    reconcile-HasReplicas spec replicas a get_metrics c band s =
        let (above, below) =
          replicas_after-bounded a (get_metrics spec.metrics_endpoint) spec replicas band s.above
            s.below in
        record {
          workload = reconcile-HasSpec spec a get_metrics c s.workload;
          deployment =
              reconcile_spec-deployment spec a get_metrics c replicas s.workload s.deployment;
          above = above;
          below = below;
        }

    -- However often the controller reconciles and whatever it meets, errors and metrics of any kind: the
    -- Deployment of a workload whose bounds are in order stays within them if it starts there.
    pub reconcile_all-IsScaled :
        (spec : Spec) (rounds : List Round) (c : Cluster C)
        → IsBand spec
        → IsScaled spec c
        → IsScaled spec (reconcile_all set_status_condition missing rounds c)
    unfolding reconcile_all
    reconcile_all-IsScaled spec [] c band s = s
    reconcile_all-IsScaled spec ((a, get_metrics) ∷ rounds) c band (replicas, s) =
        reconcile_all-IsScaled spec rounds _ band
          (_, reconcile-HasReplicas spec replicas a get_metrics c band s)
