-- ===== src/Samples/Injections.antt =====
-- A unique prompt, and the theorem about it there.
use ai_infra_demo.Base.{◌≡◌}
use ai_infra_demo.Py.Text.{codes}
use ai_infra_demo.LocalChunked.{unique_prompt}
use ai_infra_demo.LocalChunked.RequestIds.{request_id, request_id-unique_prompt}

request_id-unique_prompt_example : request_id (unique_prompt (codes "Explain") 42) ≡ 42
request_id-unique_prompt_example = request_id-unique_prompt (codes "Explain") 42
