-- ===== src/LocalCompletions.antt =====
-- kv-inference/scripts/local/measure_inference_vllm.py and load_test_vllm.py: the scripts over
-- /v1/completions with their URL and model fixed.
use ai_infra_demo.Base.{ℕ}
use ai_infra_demo.Py.Text.{Text, codes}
use ai_infra_demo.Effects.{Env, World, Action}
use ai_infra_demo.Completions
use ai_infra_demo.Completions.{Measurement}
use ai_infra_demo.Completions.Load
use ai_infra_demo.Completions.Load.{Single, LoadReport, load_test}

abbrev pub vllm_url : Text
vllm_url = codes "http://localhost:8000/v1/completions"

abbrev pub local_model : Text
local_model = codes "mlx-community/Qwen2.5-0.5B-Instruct-4bit"

unfoldable pub run_inference : Env → Text → Action Measurement
run_inference env prompt = Completions.run_inference env prompt vllm_url local_model

unfoldable pub single_request : Env → Text → Action Single
single_request env prompt = Load.single_request env prompt vllm_url local_model

unfoldable pub run_load_test : Env → (ℕ → World) → ℕ → Action LoadReport
unfolding single_request
run_load_test env threads concurrency = load_test env (single_request env) threads concurrency
