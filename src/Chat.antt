-- ===== src/Chat.antt =====
-- What the chat scripts of kv-inference/scripts share: the messages of a conversation, the request
-- that carries them, and `run_inference` over it.
pub mod Prompts
pub mod Replies
pub mod Session
pub mod Options
pub mod Payload
use ai_infra_demo.Base.{ℕ, Bool, true, List, [], ◌∷◌}
use ai_infra_demo.Base.Int.{pos}
use ai_infra_demo.Py.Result.{Result}
use ai_infra_demo.Py.Text.{Text, codes}
use ai_infra_demo.Py.Json.{
  Json, Items, Fields, str, arr, obj, bool, int, nil, cons, end, field, join,
}
use ai_infra_demo.Effects.{Request, Env, World, Action, pure, lift, ◌>>=◌}
use ai_infra_demo.Sse.{chat_text}
use ai_infra_demo.Inference.{Timed, timed_request, ttft_ms, tpot_ms, total_tokens}

pub record Message : Type 0 where
  pub role : Text
  pub content : Text

abbrev pub system_message : Message
system_message = record { role = codes "system"; content = codes "You are a helpful assistant." }

abbrev pub user : Text → Message
user content = record { role = codes "user"; content = content }

abbrev pub assistant : Text → Message
assistant content = record { role = codes "assistant"; content = content }

abbrev message_json : Message → Json
message_json m =
    obj (field (codes "role") (str m.role) (field (codes "content") (str m.content) end))

pub messages_json : List Message → Items
messages_json [] = nil
messages_json (m ∷ ms) = cons (message_json m) (messages_json ms)

-- The payload and the URL of a request.
unfoldable pub chat_request : ℕ → Text → Text → List Message → Request
unfolding messages_json
chat_request max_tokens url model messages = record {
  url = url;
  payload = obj (
      field (codes "model") (str model) (
        field (codes "messages") (arr (messages_json messages)) (
          field (codes "stream") (bool true)
            (field (codes "max_tokens") (int (pos max_tokens)) end))));
}

pub record Inference : Type 0 where
  pub ttft_ms : ℕ
  pub tpot_ms : ℕ
  pub total_tokens : ℕ
  pub response_full : Text

-- What `run_inference` returns of the times and the texts.
unfoldable pub report : Timed → Action Inference
report t = do
  response_full ← lift (join t.full_response)
  pure (record {
    ttft_ms = ttft_ms t;
    tpot_ms = tpot_ms t;
    total_tokens = total_tokens t;
    response_full = response_full;
  })

-- `run_inference` with the given `max_tokens`.
unfoldable pub chat_inference : Env → ℕ → Text → Text → List Message → Action Inference
unfolding report
chat_inference env max_tokens url model messages = do
  t ← timed_request env chat_text (chat_request max_tokens url model messages)
  report t
