-- ===== src/Operator/Scaling/Bounds.antt =====
-- The bounds of the number of replicas.
use ai_infra_demo.Base.{
  ℕ, ◌+◌, ◌-◌, ◌≤◌, ◌<◌, ◌≡◌, ◌↔◌, ◌≢◌, refl, sym, inl, inr, Bool, true, false, arith, Bool-cases,
  ltb, if◌then◌else◌,
}
use ai_infra_demo.Operator.Int32.{sign_bit, less, less_nonnegative, increment_small, decrement_pos}
use ai_infra_demo.Operator.Types.{Spec}
use ai_infra_demo.Operator.Scaling.{compute_desired_replicas}

-- Bounds that are in order, positive, and leave room for one more replica in an int32.
pub record IsBand (spec : Spec) : Type 0 where
  pub min_pos : 1 ≤ spec.min_replicas
  pub ordered : spec.min_replicas ≤ spec.max_replicas
  pub small : spec.max_replicas + 1 < sign_bit

-- The two comparisons with the usage.
abbrev pub is_pressed : ℕ → Spec → Bool
is_pressed usage spec = less spec.kv_cache_threshold_percent usage

abbrev pub is_idle : ℕ → Spec → Bool
is_idle usage spec = less usage spec.kv_cache_scale_down_threshold_percent

module _ (current usage : ℕ) (spec : Spec) (band : IsBand spec) (lo : spec.min_replicas ≤ current)
    (hi : current ≤ spec.max_replicas) where
  pub desired_pressed :
      is_pressed usage spec ≡ true
      → compute_desired_replicas current usage spec
        ≡ (if ltb current spec.max_replicas then current + 1 else current)
  unfolding compute_desired_replicas
  desired_pressed pressed =
      rw
        (
          pressed,
          increment_small current (omega (arith, band.small)),
          less_nonnegative spec.max_replicas (current + 1) (omega (arith, band.small))
              (omega (arith, band.small)),
        )
        (ground arith)

  pub desired_idle :
      is_pressed usage spec ≡ false
      → is_idle usage spec ≡ true
      → compute_desired_replicas current usage spec
        ≡ (if ltb spec.min_replicas current then current - 1 else current)
  unfolding compute_desired_replicas
  desired_idle calm idle =
      rw
        (
          calm,
          idle,
          decrement_pos current (omega (arith, band.min_pos)) (omega (arith, band.small)),
          less_nonnegative (current - 1) spec.min_replicas (omega (arith, band.small))
              (omega (arith, band.small, band.ordered)),
        )
        (ground (arith, band.min_pos))

  pub desired_calm :
      is_pressed usage spec ≡ false
      → is_idle usage spec ≡ false
      → compute_desired_replicas current usage spec ≡ current
  unfolding compute_desired_replicas
  desired_calm calm busy = rw (calm, busy) refl

true-ne-false : true ≢ false
true-ne-false p = cc

-- A step within the bounds, by the two comparisons.
IsStep : ℕ → ℕ → ℕ → Bool → Bool → ℕ → Type 0
IsStep lo hi current pressed idle desired =
    lo ≤ desired
    × desired ≤ hi
    × ((current < desired) ↔ ((pressed ≡ true) × current < hi))
    × ((desired < current) ↔ ((pressed ≡ false) × (idle ≡ true) × lo < current))
    × desired ≤ current + 1
    × current ≤ desired + 1

module _ (lo hi current : ℕ) (above : lo ≤ current) (below : current ≤ hi) where
  up-IsStep :
      (idle : Bool)
      → IsStep lo hi current true idle (if ltb current hi then current + 1 else current)
  unfolding IsStep
  up-IsStep idle = elim (Bool-cases (ltb current hi)) [
    | inl room ↦ rw room (
      omega arith,
      ground arith,
      (λ h. (refl, ground arith), λ h. omega arith),
      (λ h. absurd (omega arith), λ (p, _, _). absurd (true-ne-false p)),
      omega arith,
      omega arith,
    )
    | inr full ↦ rw full (
      omega arith,
      omega arith,
      (λ h. absurd (omega arith), λ (_, h). ground arith),
      (λ h. absurd (omega arith), λ (p, _, _). absurd (true-ne-false p)),
      omega arith,
      omega arith,
    )
  ]

  down-IsStep : IsStep lo hi current false true (if ltb lo current then current - 1 else current)
  unfolding IsStep
  down-IsStep = elim (Bool-cases (ltb lo current)) [
    | inl room ↦ rw room (
      ground arith,
      omega arith,
      (λ h. absurd (omega arith), λ (p, _). absurd (true-ne-false (sym p))),
      (λ h. (refl, refl, ground arith), λ h. ground arith),
      omega arith,
      omega arith,
    )
    | inr full ↦ rw full (
      omega arith,
      omega arith,
      (λ h. absurd (omega arith), λ (p, _). absurd (true-ne-false (sym p))),
      (λ h. absurd (omega arith), λ (_, _, h). ground arith),
      omega arith,
      omega arith,
    )
  ]

  calm-IsStep : IsStep lo hi current false false current
  unfolding IsStep
  calm-IsStep = (
    above,
    below,
    (λ h. absurd (omega arith), λ (p, _). absurd (true-ne-false (sym p))),
    (λ h. absurd (omega arith), λ (_, p, _). absurd (true-ne-false (sym p))),
    omega arith,
    omega arith,
  )

-- A number within bounds that are in order stays within them and moves by one at most: up exactly
-- where the usage is above the upper threshold and there is room, down exactly where it is not, but
-- below the lower threshold, and there is room.
pub compute_desired_replicas-bounded :
    (current usage : ℕ) (spec : Spec)
    → IsBand spec
    → spec.min_replicas ≤ current
    → current ≤ spec.max_replicas
    → let desired = compute_desired_replicas current usage spec in
      spec.min_replicas ≤ desired
      × desired ≤ spec.max_replicas
      × ((current < desired) ↔ ((is_pressed usage spec ≡ true) × current < spec.max_replicas))
      × ((desired < current) ↔ (
          (is_pressed usage spec ≡ false)
          × (is_idle usage spec ≡ true)
          × spec.min_replicas < current))
      × desired ≤ current + 1
      × current ≤ desired + 1
unfolding IsStep
compute_desired_replicas-bounded current usage spec band lo hi =
    elim (Bool-cases (is_pressed usage spec)) [
      | inl pressed ↦
          rw (desired_pressed current usage spec band lo hi pressed, pressed)
            (up-IsStep spec.min_replicas spec.max_replicas current lo hi (is_idle usage spec))
      | inr calm ↦ elim (Bool-cases (is_idle usage spec)) [
        | inl idle ↦
            rw (desired_idle current usage spec band lo hi calm idle, calm, idle)
              (down-IsStep spec.min_replicas spec.max_replicas current lo hi)
        | inr busy ↦
            rw (desired_calm current usage spec band lo hi calm busy, calm, busy)
              (calm-IsStep spec.min_replicas spec.max_replicas current lo hi)
      ]
    ]

pub compute_desired_replicas_within :
    (current usage : ℕ) (spec : Spec)
    → IsBand spec
    → spec.min_replicas ≤ current
    → current ≤ spec.max_replicas
    → spec.min_replicas ≤ compute_desired_replicas current usage spec
      × compute_desired_replicas current usage spec ≤ spec.max_replicas
compute_desired_replicas_within current usage spec band lo hi =
    let (above, below, _, _, _, _) =
      compute_desired_replicas-bounded current usage spec band lo hi in
    (above, below)
