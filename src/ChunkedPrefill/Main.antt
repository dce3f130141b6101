-- ===== src/ChunkedPrefill/Main.antt =====
-- `__main__` of the newer load_test_chunked_prefill.py: its sessions in the pool, the injector beside
-- them, and the report of what both left.
pub mod Threads
use ai_infra_demo.Base.{ℕ, Bool, Option, List}
use ai_infra_demo.Py.Result.{Result}
use ai_infra_demo.Py.Text.{Text}
use ai_infra_demo.Effects.{Env, World}
use ai_infra_demo.Chat.Session.{SessionArgs}
use ai_infra_demo.Injections.{Entry}
use ai_infra_demo.Injections.Mixed.{Mixed, MixedRun}
use ai_infra_demo.ChunkedPrefill.{run_chat_session}
use ai_infra_demo.ChunkedPrefill.ColdPrompt.{build_cold_prompt}
use ai_infra_demo.ChunkedPrefill.Report.{Report, report}

-- Each session runs in a thread of its own; `is_set n i` is what the event answers session n after its
-- turn i.
module _ (envs : ℕ → Env) (is_set : ℕ → ℕ → Bool) (threads : ℕ → World) (args : SessionArgs) where
  -- What `f.result()` gives for session n.
  unfoldable pub session_outcome : ℕ → Result (List Entry)
  session_outcome n =
      (run_chat_session (envs n) (is_set n) (record args { session_id = n }) (threads n)).0

  -- The runs of the two loops, from c sessions on.
  abbrev pub MainRun : Env → (ℕ → ℕ → ℕ) → ℕ → World → Mixed → List ℕ → Type 0
  MainRun env draws c w =
      MixedRun env 600 (λ n. build_cold_prompt (draws n)) args.url args.model session_outcome c w

-- What is printed of a run that Ctrl-C has ended.
unfoldable pub print_results : Mixed → Result (Option Report)
print_results m = report m.pool.all_results
