-- ===== src/Sse.antt =====
-- The loop over a streamed response in server-sent-event form, which the vLLM scripts of
-- kv-inference/scripts share: `for raw_line in resp`. A script says how it reads the text of a
-- chunk and what it keeps of a token and of the end.
pub mod Content
pub mod Timing
pub mod Quiet
pub mod Forget
use ai_infra_demo.Base.{ℕ, Bool, true, false, not, ◌||◌, List, [], ◌∷◌, drop, if◌then◌else◌}
use ai_infra_demo.Py.Result.{
  Result, ok, ◌>>=◌ as bind_ok, or_raise, unicode_decode_error, json_decode_error, read_error,
}
use ai_infra_demo.Py.Text.{Text, Bytes, codes, text_eq, starts_with, strip, decode}
use ai_infra_demo.Py.Json.{
  Json, Items, Fields, obj, arr, nil, cons, end, truthy, get, item_0, empty_str, or_empty,
}
use ai_infra_demo.Effects.{
  Event, line, broken, Env, Action, pure, throw, lift, ◌>>=◌, ◌>>◌, perf_counter,
}

abbrev pub data_prefix : Text
data_prefix = codes "data: "

abbrev pub done_mark : Text
done_mark = codes "[DONE]"

abbrev empty_dict : Json
empty_dict = obj end

-- `chunk.get("choices", [{}])[0]`
unfoldable pub first_choice : Json → Result Json
first_choice chunk = bind_ok (get (codes "choices") (arr (cons empty_dict nil)) chunk) item_0

-- `first_choice.get("delta", {}).get("content", "") or ""`
unfoldable pub chat_text : Json → Result Json
unfolding first_choice
chat_text chunk = bind_ok (first_choice chunk) λ choice.
    bind_ok (get (codes "delta") empty_dict choice)
      λ delta. bind_ok (get (codes "content") empty_str delta) λ content. ok (or_empty content)

-- `first_choice.get("text", "")`
unfoldable pub completion_text : Json → Result Json
unfolding first_choice
completion_text chunk = bind_ok (first_choice chunk) λ choice. get (codes "text") empty_str choice

-- After a line the loop goes on or is left by `break`.
pub data Flow (S : Type 0) : Type 0 where
  go_on : S → Flow S
  leave : S → Flow S

abbrev pub resume : {S : Type 0} → (S → Action S) → Flow S → Action S
resume rest (go_on s) = rest s
resume rest (leave s) = pure s

-- What a script does with the text of a chunk: `extract` reads it, `token` keeps a non-empty one
-- with the time of its arrival, `finish` keeps the time of the end mark.
pub record Reader (S : Type 0) : Type 0 where
  pub extract : Json → Result Json
  pub token : ℕ → Json → S → S
  pub finish : ℕ → S → S

abbrev is_empty : Text → Bool
is_empty [] = true
is_empty (c ∷ t) = false

module _ (env : Env) {S : Type 0} (reader : Reader S) where
  -- The body of the loop below the `continue`.
  unfoldable pub handle_data : Text → S → Action (Flow S)
  handle_data payload s =
      if text_eq payload done_mark
      then (do t ← perf_counter env; pure (leave (reader.finish t s)))
      else do
        chunk ← lift (or_raise json_decode_error (env.loads payload))
        now ← perf_counter env
        token_text ← lift (reader.extract chunk)
        pure (go_on (if truthy token_text then reader.token now token_text s else s))

  -- The body from the test of the stripped line on.
  unfoldable pub handle_text : Text → S → Action (Flow S)
  unfolding handle_data
  handle_text t s =
      if is_empty t || not (starts_with t data_prefix)
      then pure (go_on s)
      else handle_data (drop 6 t) s

  unfoldable pub handle_line : Bytes → S → Action (Flow S)
  unfolding handle_text
  handle_line raw_line s = do
    decoded ← lift (or_raise unicode_decode_error (decode raw_line))
    handle_text (strip decoded) s

  unfoldable pub handle_event : Event → S → Action (Flow S)
  unfolding handle_line
  handle_event (line raw_line) s = handle_line raw_line s
  handle_event broken s = throw read_error

  unfoldable pub sse_loop : List Event → S → Action S
  unfolding handle_event
  sse_loop [] s = pure s
  sse_loop (e ∷ es) s = do flow ← handle_event e s; resume (sse_loop es) flow
