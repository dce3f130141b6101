-- ===== src/MultiSession.antt =====
-- kv-inference/scripts/nebius-3-kv-expr/load_test_multi_session.py: a chat session and the dict that
-- a turn leaves. The report below the pool is in `Report`.
pub mod Turns
pub mod Session
pub mod Main
pub mod Options
pub mod Script
pub mod Report
use ai_infra_demo.Base.{ℕ, suc, ◌-◌, Bool, List, [], ◌∷◌, length}
use ai_infra_demo.Py.Text.{Text}
use ai_infra_demo.Py.Slices.{slice_to}
use ai_infra_demo.Effects.{Env, Action}
use ai_infra_demo.Chat.{Message, system_message, Inference, chat_inference}
use ai_infra_demo.Chat.Session.{SessionArgs, session_loop}
use Turns.{turns}

unfoldable pub run_inference : Env → Text → Text → List Message → Action Inference
run_inference env url model messages = chat_inference env 600 url model messages

-- The dict that a turn leaves in the results.
pub record Row : Type 0 where
  pub session : ℕ
  pub turn : ℕ
  pub prompt_messages : ℕ
  pub ttft_ms : ℕ
  pub tpot_ms : ℕ
  pub total_tokens : ℕ

abbrev pub row : ℕ → ℕ → Inference → List Message → Row
row session_id i result messages = record {
  session = session_id;
  turn = suc i;
  prompt_messages = length messages - 1;
  ttft_ms = result.ttft_ms;
  tpot_ms = result.tpot_ms;
  total_tokens = result.total_tokens;
}

-- `is_set i` is what `stop_event.is_set()` answers after turn i.
unfoldable pub run_chat_session : Env → (ℕ → Bool) → SessionArgs → Action (List Row)
run_chat_session env is_set args =
    session_loop env is_set 600 args (row args.session_id) 0 (slice_to args.max_turns turns)
      (system_message ∷ []) []
