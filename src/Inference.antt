-- ===== src/Inference.antt =====
-- One timed request, which the scripts of kv-inference/scripts repeat: `run_inference`, from the
-- first reading of the clock to the figures that are computed from the times.
-- Figures are whole numbers of the last digit that `round` keeps: tenths of a millisecond, tenths
-- of a token per second.
pub mod Times
pub mod Figures
pub mod Texts
pub mod Sent
use mathlib.Core.List.{head?}
use ai_infra_demo.Base.{
  ℕ, suc, ◌-◌, ◌*◌, ◌^◌, Option, none, some, List, [], ◌∷◌, ◌++◌, length, ltb, ◌==◌, if◌then◌else◌,
}
use ai_infra_demo.Py.Result.{Result, ok, raised, zero_division_error}
use ai_infra_demo.Py.Round.{round_div}
use ai_infra_demo.Py.Json.{Json}
use ai_infra_demo.Effects.{Request, Event, Env, Action, pure, ◌>>=◌, perf_counter, urlopen}
use ai_infra_demo.Sse.{Reader, sse_loop}

-- The variables of the loop.
pub record Stream : Type 0 where
  pub t_first_token : Option ℕ
  pub token_times : List ℕ
  pub full_response : List Json
  pub t_done : Option ℕ

abbrev pub no_tokens : Stream
no_tokens = record { t_first_token = none; token_times = []; full_response = []; t_done = none }

-- `if t_first_token is None: t_first_token = now`
abbrev pub or_first : Option ℕ → ℕ → Option ℕ
or_first none now = some now
or_first (some t) now = some t

abbrev pub add_token : ℕ → Json → Stream → Stream
add_token now token_text s = record s {
  t_first_token = or_first s.t_first_token now;
  token_times = s.token_times ++ now ∷ [];
  full_response = s.full_response ++ token_text ∷ [];
}

abbrev pub stream_reader : (Json → Result Json) → Reader Stream
stream_reader extract = record {
  extract = extract;
  token = add_token;
  finish = λ now s. record s { t_done = some now };
}

-- `t or other`, where a time 0 counts as false.
abbrev pub or_time : Option ℕ → ℕ → ℕ
or_time none other = other
or_time (some t) other = if t == 0 then other else t

-- The times of a request, after the `or` lines, and what was received.
pub record Timed : Type 0 where
  pub t_request_sent : ℕ
  pub t_first_token : ℕ
  pub t_done : ℕ
  pub token_times : List ℕ
  pub full_response : List Json

module _ (env : Env) where
  -- `t or time.perf_counter()`
  abbrev pub or_now : Option ℕ → Action ℕ
  or_now none = perf_counter env
  or_now (some t) = if t == 0 then perf_counter env else pure t

  -- The two `or` lines below the loop.
  unfoldable pub finish_request : ℕ → Stream → Action Timed
  finish_request t_request_sent s = do
    t_done ← or_now s.t_done
    pure (record {
      t_request_sent = t_request_sent;
      t_first_token = or_time s.t_first_token t_done;
      t_done = t_done;
      token_times = s.token_times;
      full_response = s.full_response;
    })

  -- From the first line of the response on.
  unfoldable pub receive : (Json → Result Json) → ℕ → List Event → Action Timed
  unfolding finish_request
  receive extract t_request_sent resp = do
    s ← sse_loop env (stream_reader extract) resp no_tokens
    finish_request t_request_sent s

  unfoldable pub timed_request : (Json → Result Json) → Request → Action Timed
  unfolding receive
  timed_request extract req = do
    t_request_sent ← perf_counter env
    resp ← urlopen env req
    receive extract t_request_sent resp

unfoldable pub total_tokens : Timed → ℕ
total_tokens t = length t.token_times

-- round((t_first_token - t_request_sent) * 1000, 1)
unfoldable pub ttft_ms : Timed → ℕ
ttft_ms t = round_div (t.t_first_token - t.t_request_sent) 100000

-- The generation time in nanoseconds.
unfoldable pub total_generation : Timed → ℕ
unfolding total_tokens
total_generation t = if ltb 1 (total_tokens t) then t.t_done - t.t_first_token else 0

-- round(total_generation_s / (total_tokens - 1) * 1000, 1)
unfoldable pub tpot_ms : Timed → ℕ
unfolding total_generation
tpot_ms t =
    if ltb 1 (total_tokens t)
    then round_div (total_generation t) ((total_tokens t - 1) * 100000)
    else 0

-- round(total_tokens / (t_done - t_request_sent), 1)
unfoldable pub throughput_tps : Timed → Result ℕ
unfolding total_tokens
throughput_tps t =
    let elapsed = t.t_done - t.t_request_sent in
    if elapsed == 0
    then raised zero_division_error
    else ok (round_div (total_tokens t * 10 ^ 10) elapsed)
