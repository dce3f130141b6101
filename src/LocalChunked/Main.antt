-- ===== src/LocalChunked/Main.antt =====
-- `__main__` of the older load_test_chunked_prefill.py with `--mode mixed --continuous`, which is that
-- of the newer one around its own two threads.
pub mod Threads
use ai_infra_demo.Base.{ℕ, Bool, Option, List}
use ai_infra_demo.Py.Result.{Result}
use ai_infra_demo.Effects.{Env, World}
use ai_infra_demo.Chat.Session.{SessionArgs}
use ai_infra_demo.Injections.{Entry}
use ai_infra_demo.Base.Int.{ℤ}
use ai_infra_demo.Py.Text.{Text}
use ai_infra_demo.Injections.Options.{MixedLaunch, mixed_launch}
use ai_infra_demo.Injections.Mixed.{Mixed, MixedRun}
use ai_infra_demo.ChunkedPrefill.Report.{Report, report}
use ai_infra_demo.LocalChunked.{run_chat_session, unique_prompt}
use ai_infra_demo.LocalChunked.Prompt.{cold_prompt}

module _ (envs : ℕ → Env) (is_set : ℕ → ℕ → Bool) (threads : ℕ → World) (args : SessionArgs) where
  unfoldable pub session_outcome : ℕ → Result (List Entry)
  session_outcome n =
      (run_chat_session (envs n) (is_set n) (record args { session_id = n }) (threads n)).0

  abbrev pub MainRun : Env → ℕ → World → Mixed → List ℕ → Type 0
  MainRun env c w =
      MixedRun env 200 (unique_prompt cold_prompt) args.url args.model session_outcome c w

-- The command line is that of the newer script.
unfoldable pub local_mixed_launch : (Text → Option ℤ) → List Text → Option MixedLaunch
unfolding mixed_launch
local_mixed_launch = mixed_launch

unfoldable pub print_results : Mixed → Result (Option Report)
print_results m = report m.pool.all_results
