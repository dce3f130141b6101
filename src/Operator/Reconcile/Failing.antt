-- ===== src/Operator/Reconcile/Failing.antt =====
-- A workload that the controller has left with one reason, over several reconciles.
use mathlib.Core.List.{append_assoc}
use ai_infra_demo.Base.{◌≡◌, ap, ◌∙◌, some, List, ◌++◌}
use ai_infra_demo.Operator.Types.{Spec, Reason, WorkloadLifecycle, Event}
use ai_infra_demo.Operator.Status.{Cluster}

module _ {C : Type 0} where
  -- A workload with this spec and this reason in its status.
  pub record HasReason (why : Reason) (spec : Spec) (c : Cluster C) : Type 0 where
    pub wl : WorkloadLifecycle C
    pub workload : c.workload ≡ some wl
    pub same : wl.spec ≡ spec
    pub reason : wl.status.last_transition_reason ≡ why

  -- Nothing has happened to the Deployment, these events have been recorded, and the status gives the
  -- reason.
  abbrev pub After : Reason → Spec → List Event → Cluster C → Cluster C → Type 0
  After why spec events c d =
      (d.events ≡ c.events ++ events) × (d.deployment ≡ c.deployment) × HasReason why spec d

  pub After-trans :
      (why : Reason) (spec : Spec) (es fs : List Event) (c d x : Cluster C)
      → After why spec es c d
      → After why spec fs d x
      → After why spec (es ++ fs) c x
  After-trans why spec es fs c d x (e, f, u) (g, h, v) =
      (g ∙ ap (λ xs. xs ++ fs) e ∙ append_assoc c.events es fs, h ∙ f, v)
