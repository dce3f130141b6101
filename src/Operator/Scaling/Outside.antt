-- ===== src/Operator/Scaling/Outside.antt =====
-- A number of replicas above the maximum, as after a change by hand or of the spec.
use ai_infra_demo.Base.{ℕ, ◌+◌, ◌-◌, ◌<◌, ◌≡◌, refl, ◌⊎◌, inl, inr, true, false, arith, Bool-cases}
use ai_infra_demo.Operator.Int32.{sign_bit, less_nonnegative, increment_small, decrement_pos}
use ai_infra_demo.Operator.Types.{Spec}
use ai_infra_demo.Operator.Scaling.{compute_desired_replicas}
use ai_infra_demo.Operator.Scaling.Bounds.{IsBand, is_pressed, is_idle}

-- From above the maximum of bounds that are in order, and below the last int32: pressure brings the
-- number down to the maximum at once, a usage below the lower threshold takes one replica away, and
-- any other usage leaves the number above it.
pub compute_desired_replicas_above :
    (current usage : ℕ) (spec : Spec)
    → IsBand spec
    → spec.max_replicas < current
    → current + 1 < sign_bit
    → let desired = compute_desired_replicas current usage spec in
      ((is_pressed usage spec ≡ true) × (desired ≡ spec.max_replicas))
      ⊎ ((is_pressed usage spec ≡ false)
          × (((is_idle usage spec ≡ true) × (desired ≡ current - 1))
              ⊎ ((is_idle usage spec ≡ false) × (desired ≡ current))))
unfolding compute_desired_replicas
compute_desired_replicas_above current usage spec band above small =
    elim (Bool-cases (is_pressed usage spec)) [
      | inl pressed ↦ inl (
        pressed,
        rw
            (
              pressed,
              increment_small current (omega arith),
              less_nonnegative spec.max_replicas (current + 1) (omega arith) (omega arith),
            )
            (ground arith),
      )
      | inr calm ↦ elim (Bool-cases (is_idle usage spec)) [
        | inl idle ↦ inr (
          calm,
          inl (
            idle,
            rw
                (
                  calm,
                  idle,
                  decrement_pos current (omega arith) (omega arith),
                  less_nonnegative (current - 1) spec.min_replicas (omega arith)
                      (omega (arith, band.ordered)),
                )
                (ground (arith, band.ordered)),
          ),
        )
        | inr busy ↦ inr (calm, inr (busy, rw (calm, busy) refl))
      ]
    ]
