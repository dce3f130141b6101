-- ===== src/LoadTests.antt =====
-- The load tests of one request: `__main__` of
-- kv-inference/scripts/nebius-2-vllm-w-observ/load_test_vllm.py, of its local copy, and of
-- kv-inference/scripts/local/load_test_ollama.py, which run the same `run_load_test` around their own
-- `single_request`.
pub mod Printed
pub mod Rounds
use ai_infra_demo.Base.{ℕ, List, [], ◌∷◌, ◌++◌}
use ai_infra_demo.Py.Result.{Result, ok, raised}
use ai_infra_demo.Py.Text.{Text, codes, rstrip}
use ai_infra_demo.Effects.{Env, World, Action}
use ai_infra_demo.Completions.Load
use ai_infra_demo.Completions.Load.{LoadReport, load_test, run_load_test}
use ai_infra_demo.LocalCompletions
use ai_infra_demo.Ollama.{ollama_single}

-- `run_load_test` of load_test_ollama.py.
unfoldable pub ollama_load_test : Env → (ℕ → World) → ℕ → Action LoadReport
ollama_load_test env threads concurrency = load_test env (ollama_single env) threads concurrency

-- What has been printed, and how the script ended.
abbrev pub ScriptRun : Type 0
ScriptRun = List LoadReport × Result (Unit {0})

-- A test prints its report, and the next follow, or it ends the script by its exception.
abbrev pub after_test : Result LoadReport × World → (World → ScriptRun × World) → ScriptRun × World
after_test (ok r, w) next = let ((rs, end), u) = next w in ((r ∷ rs, end), u)
after_test (raised e, w) next = (([], raised e), w)

-- `for c in …: run_load_test(c)`
unfoldable pub load_tests : (ℕ → Action LoadReport) → List ℕ → World → ScriptRun × World
load_tests run [] w = (([], ok tt), w)
load_tests run (c ∷ cs) w = after_test (run c w) (load_tests run cs)

abbrev pub concurrencies : List ℕ
concurrencies = 1 ∷ 2 ∷ 4 ∷ []

-- `f"{args.url.rstrip('/')}/v1/completions"`
unfoldable pub completions_url : Text → Text
completions_url url = rstrip 47 url ++ codes "/v1/completions"

-- `threads c` are the worlds of the requests in the test of concurrency c.
module _ (env : Env) (threads : ℕ → ℕ → World) where
  -- Without `--continuous`.
  unfoldable pub vllm_main : Text → Text → World → ScriptRun × World
  unfolding load_tests completions_url
  vllm_main url model =
      load_tests (λ c. run_load_test env (threads c) c (completions_url url) model) concurrencies

  unfoldable pub local_vllm_main : World → ScriptRun × World
  unfolding load_tests
  local_vllm_main = load_tests (λ c. LocalCompletions.run_load_test env (threads c) c) concurrencies

  unfoldable pub ollama_main : World → ScriptRun × World
  unfolding load_tests ollama_load_test
  ollama_main = load_tests (λ c. ollama_load_test env (threads c) c) concurrencies
