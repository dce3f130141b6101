-- ===== src/Samples/Requests.antt =====
-- One request to the sample server, and the theorems about requests there.
use ai_infra_demo.Base.{◌≡◌, refl, List, [], ◌∷◌, arith, ◌≤◌, ◌<◌, ◌+◌, ◌*◌, ◌-◌}
use ai_infra_demo.Py.Round.{round_div}
use ai_infra_demo.Py.Result.{ok, map_ok}
use ai_infra_demo.Py.Text.{codes, decode, strip, starts_with, text_eq}
use ai_infra_demo.Py.Json.{str, join, get, item_0, field_or, or_empty, truthy}
use ai_infra_demo.Effects.{Request, perf_counter, urlopen}
use ai_infra_demo.Sse.{chat_text, sse_loop}
use ai_infra_demo.Sse.Content.{texts}
use ai_infra_demo.Sse.Timing.{Ensures}
use ai_infra_demo.Inference.{Timed, timed_request, total_tokens, ttft_ms, tpot_ms, throughput_tps}
use ai_infra_demo.Inference.Texts.{timed_request-texts}
use ai_infra_demo.Inference.Times.{IsTimed, timed_request-IsTimed}
use ai_infra_demo.Inference.Figures.{figures_near_elapsed}
use ai_infra_demo.Chat.{Message, system_message, user, chat_request, chat_inference}
use ai_infra_demo.Samples.Server.{sample_env, sample_world, sample_lines}

abbrev sample_messages : List Message
sample_messages = system_message ∷ user (codes "q") ∷ []

abbrev sample_request : Request
sample_request = chat_request 600 (codes "u") (codes "m") sample_messages

-- What the tests compute through.
program : Unit {0}
unfolding texts chat_text decode strip starts_with text_eq get item_0 field_or or_empty truthy join
    timed_request sse_loop perf_counter urlopen chat_inference total_tokens ttft_ms tpot_ms
    throughput_tps round_div
program = tt

sample_texts :
    texts sample_env chat_text sample_lines ≡ ok (str (codes "Hi") ∷ str (codes " all") ∷ [])
unfolding program
sample_texts = refl

-- The request is sent at 1000007; the tokens are read at 3000007 and 6000007, the end mark at 10000007.
abbrev sample_timed : Timed
sample_timed = record {
  t_request_sent = 1000007;
  t_first_token = 3000007;
  t_done = 10000007;
  token_times = 3000007 ∷ 6000007 ∷ [];
  full_response = str (codes "Hi") ∷ str (codes " all") ∷ [];
}

sample_run : (timed_request sample_env chat_text sample_request sample_world).0 ≡ ok sample_timed
unfolding program
sample_run = refl

sample_figures :
    (ttft_ms sample_timed ≡ 20)
    × (tpot_ms sample_timed ≡ 70)
    × (throughput_tps sample_timed ≡ ok 2222)
unfolding program
sample_figures = (refl, refl, refl)

timed_request-texts_example :
    map_ok (λ t. t.full_response) (timed_request sample_env chat_text sample_request sample_world).0
    ≡ texts sample_env chat_text sample_lines
timed_request-texts_example = timed_request-texts sample_env chat_text sample_request sample_world

timed_request-IsTimed_example :
    Ensures IsTimed (timed_request sample_env chat_text sample_request sample_world)
timed_request-IsTimed_example =
    timed_request-IsTimed sample_env chat_text sample_request sample_world

sample_IsTimed : IsTimed sample_timed 10000007
sample_IsTimed = record {
  sent_first = omega arith;
  first_done = omega arith;
  tokens = omega arith;
  counted = refl;
  first = refl;
  ended = omega arith;
}

figures_near_elapsed_example :
    (2
        * (ttft_ms sample_timed * 100000
            + (total_tokens sample_timed - 1) * 100000 * tpot_ms sample_timed)
      ≤ 2 * (10000007 - 1000007) + total_tokens sample_timed * 100000)
    × (2 * (10000007 - 1000007)
        ≤ 2
            * (ttft_ms sample_timed * 100000
                + (total_tokens sample_timed - 1) * 100000 * tpot_ms sample_timed)
          + total_tokens sample_timed * 100000)
figures_near_elapsed_example = figures_near_elapsed sample_timed 10000007 sample_IsTimed two_tokens
  where
    two_tokens : 1 < total_tokens sample_timed
    two_tokens = unfold total_tokens in omega arith
