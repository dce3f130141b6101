-- ===== src/Ollama.antt =====
-- kv-inference/scripts/local/measure_inference_ollama.py, and `single_request` of load_test_ollama.py
-- of the same directory: requests to /api/generate, whose response is one JSON value per line and
-- ends with a chunk that says `done`.
pub mod Parts
pub mod Ticks
pub mod Outcome
pub mod Counting
use ai_infra_demo.Base.{
  ℕ, ◌+◌, ◌-◌, ◌*◌, ◌^◌, Bool, true, false, Option, none, some, List, [], ◌∷◌, ◌++◌, length, take,
  ltb, ◌==◌, if◌then◌else◌,
}
use ai_infra_demo.Base.Int.{ℤ, pos, negsuc, sub_ℕ}
use ai_infra_demo.Py.Result.{
  Result, ok, raised, ◌>>=◌ as bind_ok, or_raise, unicode_decode_error, json_decode_error,
  read_error, unbound_local_error, zero_division_error,
}
use ai_infra_demo.Py.Round.{round_div}
use ai_infra_demo.Py.Text.{Text, Bytes, codes, strip, decode}
use ai_infra_demo.Py.Json.{Json, null, str, obj, bool, end, field, get, truthy, empty_str, join}
use ai_infra_demo.Effects.{
  Request, Event, line, broken, Env, Action, pure, throw, lift, ◌>>=◌, perf_counter, urlopen,
}
use ai_infra_demo.Inference.{Stream, no_tokens, add_token, or_first, or_time}
use ai_infra_demo.Completions.Load.{Counter, no_count, Single, single}

unfoldable pub ollama_request : Text → Request
ollama_request prompt = record {
  url = codes "http://localhost:11434/api/generate";
  payload = obj (
      field (codes "model") (str (codes "qwen2.5:0.5b"))
        (field (codes "prompt") (str prompt) (field (codes "stream") (bool true) end)));
}

-- What a script keeps of the response of a chunk that is not the last, and of the last one's time.
pub record ChunkReader (S : Type 0) : Type 0 where
  pub default : Json
  pub keep : ℕ → Json → S → S
  pub finish : ℕ → S → S

module _ (env : Env) {S : Type 0} (reader : ChunkReader S) where
  -- The body below the reading of the clock.
  unfoldable pub handle_chunk : Json → ℕ → S → Action S
  handle_chunk chunk now s = do
    done ← lift (get (codes "done") (bool false) chunk)
    if truthy done then pure (reader.finish now s) else do
      response ← lift (get (codes "response") reader.default chunk)
      pure (reader.keep now response s)

  -- The body from the test of the stripped line on.
  unfoldable pub handle_stripped : Text → S → Action S
  unfolding handle_chunk
  handle_stripped [] s = pure s
  handle_stripped (c ∷ t) s = do
    chunk ← lift (or_raise json_decode_error (env.loads (c ∷ t)))
    now ← perf_counter env
    handle_chunk chunk now s

  unfoldable pub handle_chunk_line : Event → S → Action S
  unfolding handle_stripped
  handle_chunk_line (line raw_line) s = do
    decoded ← lift (or_raise unicode_decode_error (decode raw_line))
    handle_stripped (strip decoded) s
  handle_chunk_line broken s = throw read_error

  -- There is no `break`: lines below the last chunk are read too.
  unfoldable pub chunk_loop : List Event → S → Action S
  unfolding handle_chunk_line
  chunk_loop [] s = pure s
  chunk_loop (e ∷ es) s = do kept ← handle_chunk_line e s; chunk_loop es kept

abbrev pub keep_token : ℕ → Json → Stream → Stream
keep_token now token_text s = if truthy token_text then add_token now token_text s else s

abbrev pub token_reader : ChunkReader Stream
token_reader = record {
  default = empty_str;
  keep = keep_token;
  finish = λ now s. record s { t_done = some now };
}

-- Every chunk but the last counts, one without text too.
abbrev pub count_chunk : ℕ → Json → Counter → Counter
count_chunk now response s = record s {
  t_first = if truthy response then or_first s.t_first now else s.t_first;
  token_count = s.token_count + 1;
}

abbrev pub chunk_counter : ChunkReader Counter
chunk_counter = record {
  default = null;
  keep = count_chunk;
  finish = λ now s. record s { t_done = some now };
}

-- The rounded quotient of an integer: a chunk below the last one may make the generation negative.
abbrev pub round_div_ℤ : ℤ → ℕ → ℤ
round_div_ℤ (pos n) d = pos (round_div n d)
round_div_ℤ (negsuc n) d = sub_ℕ 0 (round_div (n + 1) d)

pub record OllamaMeasurement : Type 0 where
  pub ttft_ms : ℕ
  pub tpot_ms : ℤ
  pub throughput_tps : ℕ
  pub total_tokens : ℕ
  pub response_preview : Text

unfoldable pub ollama_tpot : ℕ → ℕ → ℕ → ℤ
ollama_tpot t_first_token t_done total_tokens =
    if ltb 1 total_tokens
    then round_div_ℤ (sub_ℕ t_done t_first_token) ((total_tokens - 1) * 100000)
    else pos 0

-- The figures below the loop, where `t_done` has been assigned.
unfoldable pub ollama_figures : ℕ → ℕ → Stream → Result OllamaMeasurement
unfolding ollama_tpot
ollama_figures t_request_sent t_done s =
    let t_first_token = or_time s.t_first_token t_done in
    let total_tokens = length s.token_times in
    if t_done - t_request_sent == 0
    then raised zero_division_error
    else bind_ok (join s.full_response) λ response. ok (record {
      ttft_ms = round_div (t_first_token - t_request_sent) 100000;
      tpot_ms = ollama_tpot t_first_token t_done total_tokens;
      throughput_tps = round_div (total_tokens * 10 ^ 10) (t_done - t_request_sent);
      total_tokens = total_tokens;
      response_preview = take 120 response ++ codes "...";
    })

-- `t_done` is a name without a value where no chunk was the last.
abbrev pub with_t_done : {A : Type 0} → Option ℕ → (ℕ → Result A) → Result A
with_t_done none f = raised unbound_local_error
with_t_done (some t_done) f = f t_done

unfoldable pub ollama_inference : Env → Text → Action OllamaMeasurement
unfolding chunk_loop ollama_figures
ollama_inference env prompt = do
  t_request_sent ← perf_counter env
  resp ← urlopen env (ollama_request prompt)
  s ← chunk_loop env token_reader resp no_tokens
  lift (with_t_done s.t_done λ t_done. ollama_figures t_request_sent t_done s)

unfoldable pub ollama_single : Env → Text → Action Single
unfolding chunk_loop
ollama_single env prompt = do
  t0 ← perf_counter env
  resp ← urlopen env (ollama_request prompt)
  s ← chunk_loop env chunk_counter resp no_count
  lift (with_t_done s.t_done λ t_done. single t0 (or_time s.t_first t_done) t_done s.token_count)
