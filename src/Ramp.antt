-- ===== src/Ramp.antt =====
-- kv-inference/scripts/nebius-3-kv-expr/ramp_load_test.py: stages of growing concurrency, each a child
-- process that runs load_test_multi_session.py until it is interrupted or killed.
-- Times are whole seconds, a think time whole nanoseconds. What a child does by itself is a
-- parameter: when it ends.
pub mod Schedule
pub mod Options
pub mod Children
pub mod Plan
use ai_infra_demo.Base.{ℕ, suc, ◌+◌, Option, none, some, List, [], ◌∷◌, leb, if◌then◌else◌}
use ai_infra_demo.Base.Int.{ℤ, pos_part}
use ai_infra_demo.Py.Text.{Text, codes}
use ai_infra_demo.Py.Digits.{print_int}

-- The arguments that all stages share; `think_time` is what `str` gives of the float, `executable`
-- and `script` are `sys.executable` and `SCRIPT`.
pub record RampArgs : Type 0 where
  pub executable : Text
  pub script : Text
  pub url : Text
  pub model : Text
  pub duration : ℤ
  pub turns : ℤ
  pub think_time : Text

-- `cmd` from its third element on: what the child finds in `sys.argv[1:]`.
unfoldable pub child_argv : RampArgs → ℤ → List Text
child_argv args concurrency =
    codes "--url"
    ∷ args.url
    ∷ codes "--model"
    ∷ args.model
    ∷ codes "--concurrency"
    ∷ print_int concurrency
    ∷ codes "--turns"
    ∷ print_int args.turns
    ∷ codes "--think-time"
    ∷ args.think_time
    ∷ codes "--continuous"
    ∷ []

unfoldable pub stage_command : RampArgs → ℤ → List Text
unfolding child_argv
stage_command args concurrency = args.executable ∷ args.script ∷ child_argv args concurrency

-- When a child ends: of itself, from its start, and after SIGINT, from the signal.
pub record Child : Type 0 where
  pub by_itself : Option ℕ
  pub after_interrupt : Option ℕ

-- `proc.wait(timeout=…)` of a process that ends at the given time: it returns then, or raises
-- TimeoutExpired; a negative timeout has run out at once.
pub data Waited : Type 0 where
  ended_after : ℕ → Waited
  timeout_expired : Waited

unfoldable pub wait_for : Option ℕ → ℕ → Waited
wait_for none timeout = timeout_expired
wait_for (some t) timeout = if leb t timeout then ended_after t else timeout_expired

pub data Ending : Type 0 where
  finished interrupted killed : Ending

pub record Stage : Type 0 where
  pub command : List Text
  pub elapsed : ℕ
  pub ending : Ending

-- Below `proc.send_signal(signal.SIGINT)`.
abbrev pub stop_stage : List Text → ℕ → Waited → Stage
stop_stage command duration (ended_after t) = record {
  command = command;
  elapsed = duration + t;
  ending = interrupted;
}
stop_stage command duration timeout_expired = record {
  command = command;
  elapsed = duration + 15;
  ending = killed;
}

abbrev pub wait_stage : List Text → ℕ → Child → Waited → Stage
wait_stage command duration child (ended_after t) = record {
  command = command;
  elapsed = t;
  ending = finished;
}
wait_stage command duration child timeout_expired =
    stop_stage command duration (wait_for child.after_interrupt 15)

unfoldable pub run_stage : RampArgs → Child → ℤ → Stage
unfolding stage_command wait_for
run_stage args child concurrency =
    wait_stage (stage_command args concurrency) (pos_part args.duration) child
      (wait_for child.by_itself (pos_part args.duration))

-- `for concurrency in args.stages`; `children i` is the child of stage i.
unfoldable pub run_ramp : RampArgs → (ℕ → Child) → ℕ → List ℤ → List Stage
unfolding run_stage
run_ramp args children i [] = []
run_ramp args children i (c ∷ cs) =
    run_stage args (children i) c ∷ run_ramp args children (suc i) cs
