-- ===== src/Operator/Reconcile/Missing.antt =====
-- What is recorded while the target Deployment cannot be read, as where its name is that of none.
use mathlib.Core.Path.{subst}
use mathlib.Core.List.{append-nil, append_assoc}
use ai_infra_demo.Base.{
  ℕ, ◌≡◌, refl, sym, ap, ◌∙◌, ◌⊎◌, inl, inr, Bool, true, false, Option, none, some, List, [], ◌∷◌,
  ◌++◌, All, if◌then◌else◌,
}
use ai_infra_demo.Py.Text.{Text, codes}
use ai_infra_demo.Operator.Types.{
  Spec, Reason, target_deployment_not_found, is_metrics_unavailable, is_not_found, recovered,
  reason_text, Condition, WorkloadLifecycle, normal, warning, Event,
}
use ai_infra_demo.Operator.Status.{
  Fallible, value, failed, Cluster, Answers, StatusUpdate, record_status, updated, written,
}
use ai_infra_demo.Operator.Reconcile.{
  Metrics, Round, event_unless, recover, observe_deployment, adjust, reconcile_workload,
  reconcile_found, reconcile, reconcile_all,
}
use ai_infra_demo.Operator.Reconcile.Failing.{HasReason, After, After-trans}
use ai_infra_demo.Operator.Reconcile.Deployment.{reconcile_read}

abbrev pub not_found : Text → Event
not_found e = record { type = warning; reason = target_deployment_not_found; message = e }

-- The event of a recovery from an outage of the metrics endpoint, where there was one.
abbrev pub recovery : Reason → List Event
recovery prior =
    if is_metrics_unavailable prior
    then record {
      type = normal;
      reason = recovered;
      message = codes "recovered from " ++ reason_text prior;
    }
      ∷ []
    else []

abbrev missing_update : Metrics → Text → StatusUpdate
missing_update m e = record {
  reason = target_deployment_not_found;
  available_status = false;
  degraded_status = true;
  message = e;
  observed = some m.kv_cache_usage_percent;
  desired = none;
  scaled_now = false;
}

module _ (missing : Text) where
  -- `r.Get` of this Deployment fails with e, which is `missing` where there is none.
  abbrev pub Unread : Answers → Option (Option ℕ) → Text → Type 0
  Unread a deployment e =
      (a.get_deployment ≡ some e)
      ⊎ ((a.get_deployment ≡ none) × (deployment ≡ none) × (e ≡ missing))

  -- A round in which the metrics are m, the Deployment is not read, and the status is written.
  abbrev pub Misses : Spec → Option (Option ℕ) → Round → Metrics → Text → Type 0
  Misses spec deployment (a, get_metrics) m e =
      (a.get_workload ≡ none)
      × (a.update_status ≡ none)
      × (get_metrics spec.metrics_endpoint ≡ value m)
      × Unread a deployment e

  abbrev pub IsMissing : Spec → Option (Option ℕ) → Round → Type 0
  IsMissing spec deployment r = (m : Metrics) × (e : Text) × Misses spec deployment r m e

module _ {C : Type 0} (set_status_condition : ℕ → Condition → C → C) (missing : Text) where
  observe_deployment-Unread :
      (a : Answers) (c : Cluster C) (e : Text)
      → Unread missing a c.deployment e
      → observe_deployment missing a c ≡ failed e
  unfolding observe_deployment
  observe_deployment-Unread a c e (inl fails) = rw fails refl
  observe_deployment-Unread a c e (inr (answers, absent, same)) =
      rw (answers, absent) (ap failed (sym same))

  missing_round :
      (a : Answers) (get_metrics : Text → Fallible Metrics) (wl : WorkloadLifecycle C)
      (c : Cluster C) (m : Metrics) (e : Text)
      → c.workload ≡ some wl
      → Misses missing wl.spec c.deployment (a, get_metrics) m e
      → (let prior = wl.status.last_transition_reason in
          (reconcile set_status_condition missing a get_metrics c).0
          ≡ record (event_unless
              (is_not_found prior)
              warning
              target_deployment_not_found
              e
              (recover (is_metrics_unavailable prior) prior c)) {
                workload = some (updated set_status_condition a wl (missing_update m e));
              })
  unfolding reconcile_found reconcile_workload adjust record_status
  missing_round a get_metrics wl c m e w (read, kept, works, unread) =
      let prior = wl.status.last_transition_reason in
      let d =
        event_unless (is_not_found prior) warning target_deployment_not_found e
          (recover (is_metrics_unavailable prior) prior c) in
      reconcile_read set_status_condition missing a get_metrics c read
      ∙ ap (λ o. (reconcile_found set_status_condition missing a get_metrics o c).0) w
      ∙ ap (λ r. (reconcile_workload set_status_condition missing a wl r c).0) works
      ∙ ap
          (λ r.
            (adjust set_status_condition a wl m r
              (recover (is_metrics_unavailable prior) prior c)).0)
          (observe_deployment-Unread a c e unread)
      ∙ ap (λ o. written o (updated set_status_condition a wl (missing_update m e)) d) kept

  recorded :
      (b : Bool) (prior : Reason) (c : Cluster C) (e : Text) (wl : WorkloadLifecycle C)
      → is_not_found prior ≡ false
      → is_metrics_unavailable prior ≡ b
      → wl.status.last_transition_reason ≡ target_deployment_not_found
      → After target_deployment_not_found wl.spec
          (recovery prior ++ not_found e ∷ [])
          c
          (record (event_unless
            (is_not_found prior)
            warning
            target_deployment_not_found
            e
            (recover (is_metrics_unavailable prior) prior c)) { workload = some wl })
  recorded true prior c e wl calm was now =
      rw (calm, was)
        (
          append_assoc c.events _ _,
          refl,
          record { wl = wl; workload = refl; same = refl; reason = now },
        )
  recorded false prior c e wl calm was now =
      rw (calm, was) (refl, refl, record { wl = wl; workload = refl; same = refl; reason = now })

  first_missing :
      (r : Round) (wl : WorkloadLifecycle C) (c : Cluster C) (m : Metrics) (e : Text)
      → c.workload ≡ some wl
      → is_not_found wl.status.last_transition_reason ≡ false
      → Misses missing wl.spec c.deployment r m e
      → After target_deployment_not_found wl.spec
          (recovery wl.status.last_transition_reason ++ not_found e ∷ [])
          c
          (reconcile set_status_condition missing r.0 r.1 c).0
  unfolding updated
  first_missing (a, get_metrics) wl c m e w calm misses =
      rw (missing_round a get_metrics wl c m e w misses) (
        recorded (is_metrics_unavailable wl.status.last_transition_reason)
          wl.status.last_transition_reason c e
          (updated set_status_condition a wl (missing_update m e)) calm refl refl)

  later_missing :
      (spec : Spec) (r : Round) (c : Cluster C)
      → IsMissing missing spec c.deployment r
      → HasReason target_deployment_not_found spec c
      → After target_deployment_not_found spec [] c
          (reconcile set_status_condition missing r.0 r.1 c).0
  unfolding updated
  later_missing spec (a, get_metrics) c (m, e, misses) u =
      let wl = u.wl in
      let here : Misses missing wl.spec c.deployment (a, get_metrics) m e =
        subst (λ s. Misses missing s c.deployment (a, get_metrics) m e) (sym u.same) misses in
      rw
        (
          missing_round a get_metrics wl c m e u.workload here,
          ap is_not_found u.reason,
          ap is_metrics_unavailable u.reason,
        )
        (
          sym (append-nil c.events),
          refl,
          record { wl = _; workload = refl; same = u.same; reason = refl },
        )

  later_missings :
      (spec : Spec) (rounds : List Round) (deployment : Option (Option ℕ)) (c : Cluster C)
      → c.deployment ≡ deployment
      → All (IsMissing missing spec deployment) rounds
      → HasReason target_deployment_not_found spec c
      → After target_deployment_not_found spec [] c
          (reconcile_all set_status_condition missing rounds c)
  unfolding reconcile_all
  later_missings spec [] deployment c kept all u = (sym (append-nil c.events), refl, u)
  later_missings spec (r ∷ rounds) deployment c kept (misses, all) u =
      let (e, f, v) =
        later_missing spec r c (subst (λ d. IsMissing missing spec d r) (sym kept) misses) u in
      After-trans target_deployment_not_found spec [] [] c _ _ (e, f, v)
        (later_missings spec rounds deployment _ (f ∙ kept) all v)

  -- One or more rounds in which the metrics endpoint answers, the target Deployment is not read, and the
  -- status is written, of a workload of which the status did not say before that the Deployment is not
  -- found: one warning is recorded, with the first error, behind the recovery from an outage of the
  -- metrics endpoint if the status named one; a Deployment that is there is left alone, and the status
  -- gives the reason afterwards.
  pub reconcile_all-missing :
      (wl : WorkloadLifecycle C) (r : Round) (rounds : List Round) (c : Cluster C) (m : Metrics)
      (e : Text)
      → c.workload ≡ some wl
      → is_not_found wl.status.last_transition_reason ≡ false
      → Misses missing wl.spec c.deployment r m e
      → All (IsMissing missing wl.spec c.deployment) rounds
      → After target_deployment_not_found wl.spec
          (recovery wl.status.last_transition_reason ++ not_found e ∷ [])
          c
          (reconcile_all set_status_condition missing (r ∷ rounds) c)
  unfolding reconcile_all
  reconcile_all-missing wl r rounds c m e w calm misses all =
      let (f, g, u) = first_missing r wl c m e w calm misses in
      subst
        (λ es.
          After target_deployment_not_found wl.spec es c
            (reconcile_all set_status_condition missing (r ∷ rounds) c))
        (append-nil (recovery wl.status.last_transition_reason ++ not_found e ∷ []))
        (After-trans target_deployment_not_found wl.spec _ [] c _ _ (f, g, u)
          (later_missings wl.spec rounds c.deployment _ g all u))
