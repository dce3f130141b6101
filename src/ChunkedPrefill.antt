-- ===== src/ChunkedPrefill.antt =====
-- kv-inference/scripts/nebius-3-kv-expr/load_test_chunked_prefill.py: the chat sessions, the injector
-- thread and what both leave in `all_results`. The prompt of an injection is in `ColdPrompt`, the
-- report in `Report`.
pub mod ColdPrompt
pub mod Injector
pub mod Report
pub mod Main
pub mod Script
use ai_infra_demo.Base.{ℕ, suc, ◌-◌, Bool, true, false, List, [], ◌∷◌, ◌++◌, length}
use ai_infra_demo.Py.Result.{Result, ok, raised}
use ai_infra_demo.Py.Text.{Text, codes}
use ai_infra_demo.Py.Decimal.{decimal}
use ai_infra_demo.Py.Slices.{slice_to}
use ai_infra_demo.Effects.{Env, World, Action}
use ai_infra_demo.Chat.{Message, system_message, user, Inference, chat_inference}
use ai_infra_demo.Chat.Session.{SessionArgs, session_loop}
use ai_infra_demo.MultiSession.Turns
use ai_infra_demo.Injections.{Entry, chat_entry, inject_loop}
use ColdPrompt.{build_cold_prompt}

-- The questions are those of the multi-session load test.
abbrev pub turns : List Text
turns = Turns.turns

unfoldable pub run_inference : Env → Text → Text → List Message → Action Inference
run_inference env url model messages = chat_inference env 600 url model messages

unfoldable pub run_chat_session : Env → (ℕ → Bool) → SessionArgs → Action (List Entry)
run_chat_session env is_set args =
    session_loop env is_set 600 args (chat_entry args.session_id) 0 (slice_to args.max_turns turns)
      (system_message ∷ []) []

-- The injector thread. `draws n` are the random numbers of injection n.
unfoldable pub run_injector :
    Env → (ℕ → ℕ → ℕ) → Text → Text → List Bool → ℕ → List Entry → World → List Entry × World
run_injector env draws url model = inject_loop env 600 (λ n. build_cold_prompt (draws n)) url model
