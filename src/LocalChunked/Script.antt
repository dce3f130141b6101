-- ===== src/LocalChunked/Script.antt =====
-- The older load_test_chunked_prefill.py as a whole: `__main__` is that of the newer version, around its
-- own sessions and injections.
use ai_infra_demo.Base.{ℕ, Bool, Option, List}
use ai_infra_demo.Base.Int.{ℤ}
use ai_infra_demo.Py.Result.{Result}
use ai_infra_demo.Py.Text.{Text}
use ai_infra_demo.Effects.{Env, World}
use ai_infra_demo.ChunkedPrefill.Report.{Report}
use ai_infra_demo.ChunkedPrefill.Script.{Ends}
use ai_infra_demo.ChunkedPrefill.Script.Reported.{Outcomes, Ends-Outcomes}
use ai_infra_demo.LocalChunked.{unique_prompt}
use ai_infra_demo.LocalChunked.Prompt.{cold_prompt}
use ai_infra_demo.LocalChunked.Main.{session_outcome, local_mixed_launch}
use ai_infra_demo.LocalChunked.Main.Threads.{session_outcome-AllChat}

module _ (read_float : Text → Option ℤ) (envs : ℕ → Env) (is_set : ℕ → ℕ → Bool)
    (threads : ℕ → World) (env : Env) (w : World) where
  abbrev pub LocalEnds : List Text → List ℕ → List ℕ → ℕ → Result (Option Report) → Type 0
  LocalEnds argv =
      Ends env 200 (unique_prompt cold_prompt) (session_outcome envs is_set threads) w
        (local_mixed_launch read_float argv)

  -- However the older script ends, when it has taken the sessions `finished` and not those in `left`, and
  -- its injector has made k rounds: it started no session and raises, or all that were taken have
  -- returned and it ends with the exception of one that was left, or its figures describe exactly the
  -- rows of the sessions taken and the entries that the injector would have appended in k rounds
  -- without any sessions.
  pub local_Ends-Reported :
      (argv : List Text) (finished left : List ℕ) (k : ℕ) (out : Result (Option Report))
      → LocalEnds argv finished left k out
      → Outcomes env 200
          (unique_prompt cold_prompt)
          w
          (session_outcome envs is_set threads)
          (local_mixed_launch read_float argv)
          finished
          left
          k
          out
  local_Ends-Reported argv =
      Ends-Outcomes env 200 (unique_prompt cold_prompt) w (session_outcome envs is_set threads)
        (session_outcome-AllChat envs is_set threads) (local_mixed_launch read_float argv)
