-- ===== src/Operator/Reconcile/Outage.antt =====
-- What is recorded while the metrics endpoint fails, and when it answers again.
use mathlib.Core.Path.{subst}
use mathlib.Core.List.{append-nil}
use ai_infra_demo.Base.{ℕ, ◌≡◌, refl, sym, ap, ◌∙◌, true, false, none, some, List, [], ◌∷◌, All}
use ai_infra_demo.Py.Text.{Text}
use ai_infra_demo.Operator.Types.{
  Spec, metrics_unavailable, is_metrics_unavailable, Condition, WorkloadLifecycle, warning, Event,
}
use ai_infra_demo.Operator.Status.{
  Fallible, failed, Cluster, Answers, StatusUpdate, record_status, updated, written,
}
use ai_infra_demo.Operator.Reconcile.{
  Metrics, Round, event_unless, reconcile_workload, reconcile_found, reconcile, reconcile_all,
}
use ai_infra_demo.Operator.Reconcile.Failing.{HasReason, After, After-trans}
use ai_infra_demo.Operator.Reconcile.Deployment.{reconcile_read}

-- A round in which the endpoint fails with this error, and the status is written.
abbrev pub FailsWith : Spec → Round → Text → Type 0
FailsWith spec (a, get_metrics) e =
    (a.get_workload ≡ none)
    × (a.update_status ≡ none)
    × (get_metrics spec.metrics_endpoint ≡ failed e)

abbrev pub IsOutage : Spec → Round → Type 0
IsOutage spec r = (e : Text) × FailsWith spec r e

abbrev pub unavailable : Text → Event
unavailable e = record { type = warning; reason = metrics_unavailable; message = e }

abbrev outage_update : Text → StatusUpdate
outage_update e = record {
  reason = metrics_unavailable;
  available_status = false;
  degraded_status = true;
  message = e;
  observed = none;
  desired = none;
  scaled_now = false;
}

module _ {C : Type 0} (set_status_condition : ℕ → Condition → C → C) (missing : Text) where
  outage_round :
      (a : Answers) (get_metrics : Text → Fallible Metrics) (wl : WorkloadLifecycle C)
      (c : Cluster C) (e : Text)
      → c.workload ≡ some wl
      → FailsWith wl.spec (a, get_metrics) e
      → (reconcile set_status_condition missing a get_metrics c).0
        ≡ record (event_unless
            (is_metrics_unavailable wl.status.last_transition_reason)
            warning
            metrics_unavailable
            e
            c) { workload = some (updated set_status_condition a wl (outage_update e)) }
  unfolding reconcile_found reconcile_workload record_status
  outage_round a get_metrics wl c e w (read, kept, fails) =
      let d =
        event_unless (is_metrics_unavailable wl.status.last_transition_reason) warning
          metrics_unavailable e c in
      reconcile_read set_status_condition missing a get_metrics c read
      ∙ ap (λ o. (reconcile_found set_status_condition missing a get_metrics o c).0) w
      ∙ ap (λ m. (reconcile_workload set_status_condition missing a wl m c).0) fails
      ∙ ap (λ o. written o (updated set_status_condition a wl (outage_update e)) d) kept

  first_round :
      (r : Round) (wl : WorkloadLifecycle C) (c : Cluster C) (e : Text)
      → c.workload ≡ some wl
      → is_metrics_unavailable wl.status.last_transition_reason ≡ false
      → FailsWith wl.spec r e
      → After metrics_unavailable wl.spec
          (unavailable e ∷ [])
          c
          (reconcile set_status_condition missing r.0 r.1 c).0
  unfolding updated
  first_round (a, get_metrics) wl c e w calm fails =
      rw (outage_round a get_metrics wl c e w fails, calm)
        (refl, refl, record { wl = _; workload = refl; same = refl; reason = refl })

  later_round :
      (spec : Spec) (r : Round) (c : Cluster C)
      → IsOutage spec r
      → HasReason metrics_unavailable spec c
      → After metrics_unavailable spec [] c (reconcile set_status_condition missing r.0 r.1 c).0
  unfolding updated
  later_round spec (a, get_metrics) c (e, fails) u =
      let wl = u.wl in
      let here : FailsWith wl.spec (a, get_metrics) e =
        subst (λ s. FailsWith s (a, get_metrics) e) (sym u.same) fails in
      rw (outage_round a get_metrics wl c e u.workload here, ap is_metrics_unavailable u.reason)
        (
          sym (append-nil c.events),
          refl,
          record { wl = _; workload = refl; same = u.same; reason = refl },
        )

  later_rounds :
      (spec : Spec) (rounds : List Round) (c : Cluster C)
      → All (IsOutage spec) rounds
      → HasReason metrics_unavailable spec c
      → After metrics_unavailable spec [] c (reconcile_all set_status_condition missing rounds c)
  unfolding reconcile_all
  later_rounds spec [] c all u = (sym (append-nil c.events), refl, u)
  later_rounds spec (r ∷ rounds) c (outage, all) u =
      let (e, f, v) = later_round spec r c outage u in
      After-trans metrics_unavailable spec [] [] c _ _ (e, f, v) (later_rounds spec rounds _ all v)

  -- An outage of the metrics endpoint, of one or more rounds in which the workload is read and its status
  -- written, which did not say before that its metrics are unavailable: one warning is recorded,
  -- with the first error, the Deployment is left alone, and the status says so afterwards.
  pub reconcile_all-outage :
      (wl : WorkloadLifecycle C) (r : Round) (rounds : List Round) (c : Cluster C) (e : Text)
      → c.workload ≡ some wl
      → is_metrics_unavailable wl.status.last_transition_reason ≡ false
      → FailsWith wl.spec r e
      → All (IsOutage wl.spec) rounds
      → After metrics_unavailable wl.spec
          (unavailable e ∷ [])
          c
          (reconcile_all set_status_condition missing (r ∷ rounds) c)
  unfolding reconcile_all
  reconcile_all-outage wl r rounds c e w calm fails all =
      let (f, g, u) = first_round r wl c e w calm fails in
      After-trans metrics_unavailable wl.spec (unavailable e ∷ []) [] c _ _ (f, g, u)
        (later_rounds wl.spec rounds _ all u)
