-- ===== src/Ramp/Schedule.antt =====
-- How long a ramp takes, and what it starts.
use ai_infra_demo.Base.{
  ℕ, ◌+◌, ◌*◌, ◌≤◌, ◌≡◌, refl, ◌⊎◌, inl, inr, Bool-cases, Option, none, some, List, [], ◌∷◌, map,
  length, leb, arith, suc,
}
use ai_infra_demo.Base.Int.{ℤ, pos_part}
use ai_infra_demo.Py.Text.{Text}
use ai_infra_demo.Ramp.{
  RampArgs, stage_command, Child, Waited, ended_after, timeout_expired, wait_for, finished, Stage,
  stop_stage, wait_stage, run_stage, run_ramp,
}

abbrev pub total_elapsed : List Stage → ℕ
total_elapsed [] = 0
total_elapsed (s ∷ ss) = s.elapsed + total_elapsed ss

wait_for_cases :
    (o : Option ℕ) (timeout : ℕ)
    → ((t : ℕ) × (t ≤ timeout) × (o ≡ some t) × (wait_for o timeout ≡ ended_after t))
      ⊎ (wait_for o timeout ≡ timeout_expired)
unfolding wait_for
wait_for_cases none timeout = inr refl
wait_for_cases (some t) timeout = elim (Bool-cases (leb t timeout)) [
  | inl in_time ↦ inl (t, ground arith, refl, rw in_time refl)
  | inr late ↦ inr (rw late refl)
]

-- A stage's time, and how its process ends.
abbrev pub StageBounds : ℕ → Child → Stage → Type 0
StageBounds duration child s =
    (s.elapsed ≤ duration + 15)
    × (((s.ending ≡ finished) × (child.by_itself ≡ some s.elapsed)) ⊎ (duration ≤ s.elapsed))

stop_stage-StageBounds :
    (command : List Text) (duration : ℕ) (child : Child)
    → StageBounds duration child (stop_stage command duration (wait_for child.after_interrupt 15))
stop_stage-StageBounds command duration child = elim (wait_for_cases child.after_interrupt 15) [
  | inl (t, le, _, e) ↦ rw e (omega arith, inr (omega arith))
  | inr e ↦ rw e (omega arith, inr (omega arith))
]

run_stage-StageBounds :
    (args : RampArgs) (child : Child) (c : ℤ)
    → StageBounds (pos_part args.duration) child (run_stage args child c)
unfolding run_stage
run_stage-StageBounds args child c =
    elim (wait_for_cases child.by_itself (pos_part args.duration)) [
      | inl (t, le, own, e) ↦ rw e (omega arith, inl (refl, own))
      | inr e ↦ rw e (stop_stage-StageBounds (stage_command args c) (pos_part args.duration) child)
    ]

waited_command :
    (command : List Text) (duration : ℕ) (child : Child) (w : Waited)
    → (wait_stage command duration child w).command ≡ command
waited_command command duration child (ended_after t) = refl
waited_command command duration child timeout_expired =
    elim (wait_for_cases child.after_interrupt 15) [
      | inl (t, _, _, e) ↦ rw e refl
      | inr e ↦ rw e refl
    ]

pub run_stage_command :
    (args : RampArgs) (child : Child) (c : ℤ)
    → (run_stage args child c).command ≡ stage_command args c
unfolding run_stage
run_stage_command args child c =
    waited_command (stage_command args c) (pos_part args.duration) child
      (wait_for child.by_itself (pos_part args.duration))

-- A ramp starts one process for each stage, in order, with the stage's concurrency.
pub run_ramp_commands :
    (args : RampArgs) (children : ℕ → Child) (i : ℕ) (stages : List ℤ)
    → map (λ (s : Stage). s.command) (run_ramp args children i stages)
      ≡ map (stage_command args) stages
unfolding run_ramp
run_ramp_commands args children i [] = refl
run_ramp_commands args children i (c ∷ cs) =
    rw (run_stage_command args (children i) c, run_ramp_commands args children (suc i) cs) refl

-- Whatever the children do, no stage takes more than 15 seconds above the duration.
pub run_ramp_upper :
    (args : RampArgs) (children : ℕ → Child) (i : ℕ) (stages : List ℤ)
    → total_elapsed (run_ramp args children i stages)
      ≤ length stages * (pos_part args.duration + 15)
unfolding run_ramp
run_ramp_upper args children i [] = omega arith
run_ramp_upper args children i (c ∷ cs) =
    let bounds = run_stage-StageBounds args (children i) c in
    grind (arith, bounds.0, run_ramp_upper args children (suc i) cs)

-- A child that runs until it is interrupted, as one with `--continuous` does.
abbrev pub RunsOn : Child → Type 0
RunsOn child = child.by_itself ≡ none

stage_lower :
    (duration : ℕ) (child : Child) (s : Stage)
    → RunsOn child
    → StageBounds duration child s
    → duration ≤ s.elapsed
stage_lower duration child s on (le, inr ge) = ge
stage_lower duration child s on (le, inl (_, own)) = cc

-- Where no child ends of itself, each stage takes at least the duration.
pub run_ramp_lower :
    (args : RampArgs) (children : ℕ → Child) (i : ℕ) (stages : List ℤ)
    → ((k : ℕ) → RunsOn (children k))
    → length stages * pos_part args.duration ≤ total_elapsed (run_ramp args children i stages)
unfolding run_ramp
run_ramp_lower args children i [] on = omega arith
run_ramp_lower args children i (c ∷ cs) on =
    let bound =
      stage_lower (pos_part args.duration) (children i) (run_stage args (children i) c) (on i)
        (run_stage-StageBounds args (children i) c) in
    grind (arith, bound, run_ramp_lower args children (suc i) cs on)
