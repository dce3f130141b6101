-- ===== src/MultiSession/Main.antt =====
-- `__main__` of load_test_multi_session.py without `--continuous`: the sessions of the pool, their rows
-- and the report.
pub mod Requests
use ai_infra_demo.Base.{ℕ, Bool, false, Option, List, []}
use ai_infra_demo.Py.Result.{Result, ◌>>=◌}
use ai_infra_demo.Effects.{Env, World}
use ai_infra_demo.Chat.Session.{SessionArgs}
use ai_infra_demo.Pool.{read_completed}
use ai_infra_demo.MultiSession.{Row, run_chat_session}
use ai_infra_demo.MultiSession.Report.{Report, report}

-- Each session runs in a thread of its own, with a clock, a server and a world as it sees them.
module _ (envs : ℕ → Env) (threads : ℕ → World) (args : SessionArgs) where
  -- What `f.result()` gives for session n, where the stop event is never set.
  unfoldable pub session_outcome : ℕ → Result (List Row)
  session_outcome n =
      (run_chat_session (envs n) (λ i. false) (record args { session_id = n }) (threads n)).0

  -- `order` is that in which the sessions complete.
  unfoldable pub run_once : List ℕ → Result (Option Report)
  unfolding session_outcome
  run_once order = read_completed session_outcome order [] >>= report
