-- ===== src/Operator/Status.antt =====
-- The cluster that the controller works on, what the API server answers during one reconcile, and
-- `recordStatus` of workloadlifecycle_controller.go.
use ai_infra_demo.Base.{ℕ, Bool, Option, none, some, List, if◌then◌else◌}
use ai_infra_demo.Py.Text.{Text}
use ai_infra_demo.Operator.Types.{Reason, Condition, available, degraded, WorkloadLifecycle, Event}

-- A value, or an error with its text.
pub data Fallible (A : Type 0) : Type 0 where
  value : A → Fallible A
  failed : Text → Fallible A

-- One WorkloadLifecycle, its target Deployment's `Spec.Replicas`, and the events recorded. An object
-- that does not exist is `none`.
pub record Cluster (C : Type 0) : Type 0 where
  pub workload : Option (WorkloadLifecycle C)
  pub deployment : Option (Option ℕ)
  pub events : List Event

-- What one reconcile meets: errors of the two reads and of the two writes, where there are any, and
-- the time. A read without an error gives the object as it is stored.
pub record Answers : Type 0 where
  pub get_workload : Option Text
  pub get_deployment : Option Text
  pub update_deployment : Option Text
  pub update_status : Option Text
  pub now : ℕ

-- `statusUpdate`; `none` leaves a value as it is.
pub record StatusUpdate : Type 0 where
  pub reason : Reason
  pub available_status : Bool
  pub degraded_status : Bool
  pub message : Text
  pub observed : Option ℕ
  pub desired : Option ℕ
  pub scaled_now : Bool

abbrev pub or_old {ℓ} : {A : Type ℓ} → Option A → A → A
or_old none old = old
or_old (some new) old = new

-- A write that fails is only logged.
abbrev pub written : {C : Type 0} → Option Text → WorkloadLifecycle C → Cluster C → Cluster C
written none wl c = record c { workload = some wl }
written (some e) wl c = c

-- `meta.SetStatusCondition` belongs to a library; it is given the time.
module _ {C : Type 0} (set_status_condition : ℕ → Condition → C → C) where
  abbrev with_condition : Answers → WorkloadLifecycle C → StatusUpdate → C → C
  with_condition a wl u conditions =
      set_status_condition a.now
        (record {
          type = degraded;
          status = u.degraded_status;
          reason = u.reason;
          message = u.message;
          observed_generation = wl.generation;
        })
        (set_status_condition a.now
          (record {
            type = available;
            status = u.available_status;
            reason = u.reason;
            message = u.message;
            observed_generation = wl.generation;
          })
          conditions)

  -- The status in memory.
  unfoldable pub updated : Answers → WorkloadLifecycle C → StatusUpdate → WorkloadLifecycle C
  updated a wl u = record wl {
    status = record {
      conditions = with_condition a wl u wl.status.conditions;
      observed_kv_cache_usage_percent = or_old u.observed wl.status.observed_kv_cache_usage_percent;
      desired_replicas = or_old u.desired wl.status.desired_replicas;
      last_scale_time = if u.scaled_now then some a.now else wl.status.last_scale_time;
      last_transition_reason = u.reason;
    };
  }

  unfoldable pub record_status :
      Answers → WorkloadLifecycle C → StatusUpdate → Cluster C → Cluster C
  record_status a wl u c = written a.update_status (updated a wl u) c
