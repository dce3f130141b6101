-- ===== src/Completions.antt =====
-- kv-inference/scripts/nebius-2-vllm-w-observ/measure_inference_vllm.py: one request to
-- /v1/completions and its measurement. The load test of the same directory is in `Load`.
pub mod Load
pub mod Main
use ai_infra_demo.Base.{ℕ, true, List, ◌++◌, take}
use ai_infra_demo.Base.Int.{pos}
use ai_infra_demo.Py.Text.{Text, codes}
use ai_infra_demo.Py.Json.{Json, str, obj, bool, int, end, field, join}
use ai_infra_demo.Effects.{Request, Env, Action, pure, lift, ◌>>=◌}
use ai_infra_demo.Sse.{completion_text}
use ai_infra_demo.Inference.{Timed, timed_request, total_tokens, ttft_ms, tpot_ms, throughput_tps}

unfoldable pub completion_request : Text → Text → Text → Request
completion_request prompt url model = record {
  url = url;
  payload = obj (
      field (codes "model") (str model) (
        field (codes "prompt") (str prompt)
          (field (codes "stream") (bool true) (field (codes "max_tokens") (int (pos 200)) end))));
}

pub record Measurement : Type 0 where
  pub ttft_ms : ℕ
  pub tpot_ms : ℕ
  pub throughput_tps : ℕ
  pub total_tokens : ℕ
  pub response_preview : Text

-- The figures below the loop, and the dict.
unfoldable pub measure : Timed → Action Measurement
measure t = do
  tps ← lift (throughput_tps t)
  response ← lift (join t.full_response)
  pure (record {
    ttft_ms = ttft_ms t;
    tpot_ms = tpot_ms t;
    throughput_tps = tps;
    total_tokens = total_tokens t;
    response_preview = take 120 response ++ codes "...";
  })

unfoldable pub run_inference : Env → Text → Text → Text → Action Measurement
unfolding measure
run_inference env prompt url model = do
  t ← timed_request env completion_text (completion_request prompt url model)
  measure t
