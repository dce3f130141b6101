-- ===== src/LocalChunked.antt =====
-- kv-inference/scripts/local/load_test_chunked_prefill.py: the older version of the chunked-prefill
-- load test. Its injections carry one prompt, `Prompt`, behind their number.
pub mod Prompt
pub mod RequestIds
pub mod Injector
pub mod Main
pub mod Script
use ai_infra_demo.Base.{ℕ, Bool, Option, List, [], ◌∷◌, ◌++◌}
use ai_infra_demo.Py.Result.{Result}
use ai_infra_demo.Py.Text.{Text, codes}
use ai_infra_demo.Py.Decimal.{decimal}
use ai_infra_demo.Py.Slices.{slice_to}
use ai_infra_demo.Effects.{Env, World, Action}
use ai_infra_demo.Chat.{Message, system_message, Inference, chat_inference}
use ai_infra_demo.Chat.Session.{SessionArgs, session_loop}
use ai_infra_demo.MultiSession.Turns
use ai_infra_demo.Injections.{Entry, chat_entry, inject_loop}
use Prompt.{cold_prompt}

-- The questions are those of the other load tests.
abbrev pub turns : List Text
turns = Turns.turns

unfoldable pub run_inference : Env → Text → Text → List Message → Action Inference
run_inference env url model messages = chat_inference env 200 url model messages

unfoldable pub run_chat_session : Env → (ℕ → Bool) → SessionArgs → Action (List Entry)
run_chat_session env is_set args =
    session_loop env is_set 200 args (chat_entry args.session_id) 0 (slice_to args.max_turns turns)
      (system_message ∷ []) []

-- `f"[Request ID: {inject_id}]\n\n{COLD_PROMPT}"`
unfoldable pub unique_prompt : Text → ℕ → Text
unique_prompt cold_prompt inject_id =
    codes "[Request ID: " ++ (decimal inject_id ++ (codes "]" ++ (10 ∷ 10 ∷ cold_prompt)))

unfoldable pub run_injector :
    Env → Text → Text → List Bool → ℕ → List Entry → World → List Entry × World
run_injector env url model = inject_loop env 200 (unique_prompt cold_prompt) url model
