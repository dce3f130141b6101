-- ===== src/Completions/Load/Counts.antt =====
-- Counting tokens gives the figures that the list of their times gives.
use ai_infra_demo.Base.{
  some, ℕ, ◌+◌, ◌-◌, ◌^◌, ◌≡◌, refl, sym, ap, ◌∙◌, List, [], ◌∷◌, length, length-append, ◌==◌,
  Bool-cases, inl, inr,
}
use ai_infra_demo.Py.Result.{Result, ok, raised, ◌>>=◌}
use ai_infra_demo.Py.Text.{Text}
use ai_infra_demo.Py.Json.{Json}
use ai_infra_demo.Py.Round.{round_div}
use ai_infra_demo.Effects.{Event, Env, World, Action, and_then, perf_counter, urlopen}
use ai_infra_demo.Sse.{completion_text, sse_loop}
use ai_infra_demo.Sse.Forget.{map_action, sse_loop-forget}
use ai_infra_demo.Inference.{
  Stream, no_tokens, add_token, stream_reader, Timed, or_time, or_now, finish_request, receive,
  timed_request, total_tokens, ttft_ms, throughput_tps,
}
use ai_infra_demo.Completions.{completion_request}
use ai_infra_demo.Completions.Load.{
  Counter, count_token, count_end, Single, single, finish_count, receive_count, single_request,
}

-- The dict of a load-test request, from what the request of the measurement keeps.
abbrev pub single_of : Timed → Result Single
single_of t = throughput_tps t >>= λ tps. ok (record {
  ttft_ms = ttft_ms t;
  total_s = round_div (t.t_done - t.t_request_sent) (10 ^ 7);
  tokens = total_tokens t;
  tps = tps;
})

abbrev counted : Stream → Counter
counted s = record {
  t_first = s.t_first_token;
  token_count = length s.token_times;
  t_done = s.t_done;
}

abbrev pub bind_action : {A B : Type 0} → Result A × World → (A → Result B) → Result B × World
bind_action (r, w) f = (r >>= f, w)

and_then-bind_action :
    {A A' B B' : Type 0} (f : A → A') (g : B → Result B') (m : Result A × World) (k : A → Action B)
    (k' : A' → Action B')
    → ((a : A) (w : World) → k' (f a) w ≡ bind_action (k a w) g)
    → and_then (map_action f m) k' ≡ bind_action (and_then m k) g
and_then-bind_action f g (ok a, w) k k' h = h a w
and_then-bind_action f g (raised e, w) k k' h = refl

single-single_of :
    (t : Timed) → single t.t_request_sent t.t_first_token t.t_done (total_tokens t) ≡ single_of t
unfolding single throughput_tps ttft_ms
single-single_of t = elim (Bool-cases (t.t_done - t.t_request_sent == 0)) [
  | inl at_once ↦ rw (at_once) refl
  | inr later ↦ rw (later) refl
]

counted-add_token :
    (t : ℕ) (v : Json) (s : Stream) → count_token t v (counted s) ≡ counted (add_token t v s)
counted-add_token t v s =
    ap (λ n. record (count_token t v (counted s)) { token_count = n })
      (sym (length-append s.token_times (t ∷ [])))

module _ (env : Env) where
  finish_count-counted :
      (t0 : ℕ) (s : Stream) (w : World)
      → finish_count env t0 (counted s) w ≡ bind_action (finish_request env t0 s w) single_of
  unfolding finish_count finish_request total_tokens
  finish_count-counted t0 s w = finished (or_now env s.t_done w)
    where
      finished :
          (m : Result ℕ × World)
          → and_then m (λ t_done u.
            (single t0 (or_time s.t_first_token t_done) t_done (length s.token_times), u))
            ≡ bind_action
                (and_then m (λ t_done u. (
                  ok (record {
                    t_request_sent = t0;
                    t_first_token = or_time s.t_first_token t_done;
                    t_done = t_done;
                    token_times = s.token_times;
                    full_response = s.full_response;
                  }),
                  u,
                )))
                single_of
      finished (ok t_done, u) =
          ap (λ (r : Result Single). (r, u))
            (single-single_of (record {
              t_request_sent = t0;
              t_first_token = or_time s.t_first_token t_done;
              t_done = t_done;
              token_times = s.token_times;
              full_response = s.full_response;
            }))
      finished (raised e, u) = refl

  receive_count-counted :
      (t0 : ℕ) (es : List Event) (w : World)
      → receive_count env t0 es w ≡ bind_action (receive env completion_text t0 es w) single_of
  unfolding receive_count receive
  receive_count-counted t0 es w =
      ap (λ m. and_then m (finish_count env t0))
        (sse_loop-forget env completion_text add_token (λ t s. record s { t_done = some t })
          count_token count_end counted counted-add_token (λ t s. refl) es no_tokens w)
      ∙ and_then-bind_action counted single_of
          (sse_loop env (stream_reader completion_text) es no_tokens w) (finish_request env t0)
          (finish_count env t0) (finish_count-counted t0)

  opened_count :
      (t0 : ℕ) (m : Result (List Event) × World)
      → and_then m (receive_count env t0)
        ≡ bind_action (and_then m (receive env completion_text t0)) single_of
  opened_count t0 (ok es, w) = receive_count-counted t0 es w
  opened_count t0 (raised e, w) = refl

  -- A request of the load test sends what the measurement's request sends, takes the same time and
  -- raises the same exceptions. Where that one returns, it gives the TTFT, the throughput and the
  -- number of tokens that the measurement computes, though it keeps a count of the tokens in place
  -- of their times and texts, or raises ZeroDivisionError where no time has passed.
  pub single_request-counts :
      (prompt url model : Text) (w : World)
      → single_request env prompt url model w
        ≡ bind_action
            (timed_request env completion_text (completion_request prompt url model) w)
            single_of
  unfolding single_request timed_request perf_counter urlopen
  single_request-counts prompt url model w =
      opened_count (w.now + env.gap w.readings)
        (urlopen env (completion_request prompt url model) (perf_counter env w).1)
