-- ===== src/LocalChunked/Main/Threads.antt =====
-- A mixed run of the older load test, and its report.
use ai_infra_demo.Base.{ℕ, ◌≡◌, ◌≢◌, Bool, some, List, []}
use ai_infra_demo.Py.Result.{ok}
use ai_infra_demo.Py.Slices.{slice_to}
use ai_infra_demo.Effects.{Env, World}
use ai_infra_demo.Chat.Session.{SessionArgs}
use ai_infra_demo.Pool.Runs.{IsKept, rows_of}
use ai_infra_demo.Injections.{Entry, is_inject}
use ai_infra_demo.Injections.Mixed.{Mixed}
use ai_infra_demo.Injections.Mixed.Entries.{only, AllChat}
use ai_infra_demo.Injections.Mixed.Sessions.{sessions_of}
use ai_infra_demo.Injections.Mixed.Threads.{IsInjecting}
use ai_infra_demo.ChunkedPrefill.Main.Threads.{session_loop-AllChat, MixedRun-report}
use ai_infra_demo.ChunkedPrefill.Report.{Report, chat_ttfts, inject_ttfts}
use ai_infra_demo.ChunkedPrefill.Report.Laws.{Describes, DescribesAny}
use ai_infra_demo.LocalChunked.{turns, run_chat_session, unique_prompt}
use ai_infra_demo.LocalChunked.Prompt.{cold_prompt}
use ai_infra_demo.LocalChunked.Main.{session_outcome, MainRun, print_results}

-- The sessions of the older script.
pub session_outcome-AllChat :
    (envs : ℕ → Env) (is_set : ℕ → ℕ → Bool) (threads : ℕ → World) (args : SessionArgs) (n : ℕ)
    (rows : List Entry)
    → session_outcome envs is_set threads args n ≡ ok rows
    → AllChat rows
unfolding session_outcome run_chat_session
session_outcome-AllChat envs is_set threads args n =
    session_loop-AllChat (envs n) (is_set n) 200 (record args { session_id = n }) n
      (slice_to args.max_turns turns) (threads n)

module _ (envs : ℕ → Env) (is_set : ℕ → ℕ → Bool) (threads : ℕ → World) (args : SessionArgs)
    (env : Env) (c : ℕ) (w : World) where
  -- A mixed run of the older load test, interrupted anywhere with a chat turn in its results, reports
  -- the chat turns of the sessions read and the injections made, in the same way.
  pub local_print_results-threads :
      (m : Mixed) (finished : List ℕ)
      → MainRun envs is_set threads args env c w m finished
      → rows_of (session_outcome envs is_set threads args) finished ≢ []
      → IsKept (session_outcome envs is_set threads args) c (sessions_of m.pool) finished
        × IsInjecting env 200
            (unique_prompt cold_prompt)
            args.url
            args.model
            (session_outcome envs is_set threads args)
            c
            w
            m
        × ((r : Report) × (print_results m ≡ ok (some r))
            × Describes r.chat
                (chat_ttfts (rows_of (session_outcome envs is_set threads args) finished))
            × DescribesAny r.inject (inject_ttfts (only is_inject m.pool.all_results)))
  unfolding print_results
  local_print_results-threads m finished run =
      MixedRun-report env 200 (unique_prompt cold_prompt) args.url args.model
        (session_outcome envs is_set threads args) c w
        (session_outcome-AllChat envs is_set threads args) run
