-- ===== src/MeasureChat.antt =====
-- kv-inference/scripts/nebius-3-kv-expr/measure_chat_session.py: one chat session, measured turn by
-- turn.
pub mod Transcript
pub mod Main
use ai_infra_demo.Base.{ℕ, suc, ◌-◌, List, [], ◌∷◌, ◌++◌, length, take}
use ai_infra_demo.Base.Int.{ℤ}
use ai_infra_demo.Py.Text.{Text, codes}
use ai_infra_demo.Py.Json.{join}
use ai_infra_demo.Py.Slices.{slice_to}
use ai_infra_demo.Effects.{Env, Action, pure, lift, ◌>>=◌}
use ai_infra_demo.Sse.{chat_text}
use ai_infra_demo.Inference.{Timed, timed_request, total_tokens, ttft_ms, tpot_ms, throughput_tps}
use ai_infra_demo.Chat.{Message, system_message, user, assistant, chat_request}

abbrev pub measured_turns : List Text
measured_turns =
    codes "Explain what a KV cache is in a large language model inference system."
    ∷ codes "How does the size of the KV cache affect how many concurrent users you can serve?"
    ∷ codes "What is prefix caching and how does it help with multi-turn conversations?"
    ∷ codes "What happens when the KV cache is full?"
    ∷ codes "How would you monitor KV cache utilization in production?"
    ∷ []

pub record TurnFigures : Type 0 where
  pub ttft_ms : ℕ
  pub tpot_ms : ℕ
  pub throughput_tps : ℕ
  pub total_tokens : ℕ
  pub response_full : Text

-- The figures below the loop over the response, and the dict.
unfoldable pub turn_figures : Timed → Action TurnFigures
turn_figures t = do
  tps ← lift (throughput_tps t)
  response_full ← lift (join t.full_response)
  pure (record {
    ttft_ms = ttft_ms t;
    tpot_ms = tpot_ms t;
    throughput_tps = tps;
    total_tokens = total_tokens t;
    response_full = response_full;
  })

unfoldable pub run_inference : Env → List Message → Text → Text → Action TurnFigures
unfolding turn_figures
run_inference env messages url model = do
  t ← timed_request env chat_text (chat_request 200 url model messages)
  turn_figures t

-- The dict that a turn leaves in the results.
pub record Turn : Type 0 where
  pub turn : ℕ
  pub prompt_messages : ℕ
  pub user_text : Text
  pub response_preview : Text
  pub ttft_ms : ℕ
  pub tpot_ms : ℕ
  pub throughput_tps : ℕ
  pub total_tokens : ℕ

abbrev pub measured_turn : ℕ → Text → TurnFigures → List Message → Turn
measured_turn i user_text result messages = record {
  turn = suc i;
  prompt_messages = length messages - 1;
  user_text = user_text;
  response_preview = take 120 result.response_full;
  ttft_ms = result.ttft_ms;
  tpot_ms = result.tpot_ms;
  throughput_tps = result.throughput_tps;
  total_tokens = result.total_tokens;
}

module _ (env : Env) (url model : Text) where
  -- The loop from question i on.
  unfoldable pub measure_turns : ℕ → List Text → List Message → List Turn → Action (List Turn)
  measure_turns i [] messages results = pure results
  measure_turns i (user_text ∷ rest) messages results = do
    let asked = messages ++ user user_text ∷ []
    result ← run_inference env asked url model
    let answered = asked ++ assistant result.response_full ∷ []
    measure_turns (suc i) rest answered (results ++ measured_turn i user_text result answered ∷ [])

  unfoldable pub run_chat_session : ℤ → Action (List Turn)
  unfolding measure_turns
  run_chat_session max_turns =
      measure_turns 0 (slice_to max_turns measured_turns) (system_message ∷ []) []
