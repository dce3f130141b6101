-- ===== src/Chat/Session.antt =====
-- `run_chat_session` of the chat load tests (load_test_multi_session.py and both
-- load_test_chunked_prefill.py): the loop over the questions. The scripts differ in `max_tokens`
-- and in the dict that a turn leaves.
pub mod Asks
pub mod Conversation
pub mod Rows
use ai_infra_demo.Base.{ℕ, suc, Bool, ◌&&◌, List, [], ◌∷◌, ◌++◌, if◌then◌else◌}
use ai_infra_demo.Base.Int.{ℤ, pos, ltb_ℤ}
use ai_infra_demo.Py.Result.{ok}
use ai_infra_demo.Py.Text.{Text}
use ai_infra_demo.Py.Slices.{minus_one}
use ai_infra_demo.Effects.{Env, Action, pure, ◌>>=◌, ◌>>◌, wait}
use ai_infra_demo.Chat.{Message, system_message, user, assistant, Inference, chat_inference}

-- The arguments of `run_chat_session`; a think time is in nanoseconds.
pub record SessionArgs : Type 0 where
  pub session_id : ℕ
  pub url : Text
  pub model : Text
  pub max_turns : ℤ
  pub think_time : ℤ

-- `if think_time > 0 and i < max_turns - 1`
unfoldable pub pause : SessionArgs → ℕ → Action (Unit {0})
pause args i =
    if ltb_ℤ (pos 0) args.think_time && ltb_ℤ (pos i) (minus_one args.max_turns)
    then wait args.think_time
    else pure tt

-- `is_set i` is what `stop_event.is_set()` answers after turn i, and `make_row i result messages`
-- the dict of that turn.
module _ (env : Env) (is_set : ℕ → Bool) (max_tokens : ℕ) (args : SessionArgs) {R : Type 0}
    (make_row : ℕ → Inference → List Message → R) where
  -- The loop body from the reply on: `rest` is the next round.
  unfoldable pub next_turn :
      ℕ
      → (List Message → List R → Action (List R))
      → List Message
      → List R
      → Inference
      → Action (List R)
  unfolding pause
  next_turn i rest messages results result =
      let answered = messages ++ assistant result.response_full ∷ [] in
      let results' = results ++ make_row i result answered ∷ [] in
      if is_set i then pure results' else (do pause args i; rest answered results')

  unfoldable pub session_loop : ℕ → List Text → List Message → List R → Action (List R)
  unfolding next_turn
  session_loop i [] messages results = pure results
  session_loop i (user_text ∷ rest) messages results = do
    let asked = messages ++ user user_text ∷ []
    result ← chat_inference env max_tokens args.url args.model asked
    next_turn i (session_loop (suc i) rest) asked results result
