-- ===== src/Samples/Measured.antt =====
-- A measured session with the sample server, an answer of an Ollama server, and the theorems there.
use ai_infra_demo.Base.{
  ◌+◌, suc, ◌*◌, ◌≡◌, refl, true, Option, none, some, List, [], ◌∷◌, if◌then◌else◌,
}
use ai_infra_demo.Py.Result.{ok, raised, ◌>>=◌, map_ok, unbound_local_error}
use ai_infra_demo.Py.Text.{Text, codes, strip, decode, text_eq}
use ai_infra_demo.Py.Json.{Json, str, bool, obj, end, field, get, field_or, truthy, join}
use ai_infra_demo.Py.Round.{round_div}
use ai_infra_demo.Effects.{Event, line, opened, Env, events_of, perf_counter, urlopen}
use ai_infra_demo.Ollama.{ollama_request, ollama_inference, ollama_figures, ollama_tpot, chunk_loop}
use ai_infra_demo.Base.{arith}
use ai_infra_demo.Inference.{no_tokens}
use ai_infra_demo.Completions.Load.{no_count}
use ai_infra_demo.Ollama.{token_reader, chunk_counter}
use ai_infra_demo.Ollama.Counting.{Follows, FollowsOn, chunk_loop-FollowsOn}
use ai_infra_demo.Ollama.Parts.{parts}
use ai_infra_demo.Ollama.Outcome.{done_in, Outcome, ollama_inference-Outcome}
use ai_infra_demo.Samples.Server.{sample_world}

-- `A` and `Z` stand for the JSON of a chunk with a text and of the last chunk.
abbrev ollama_loads : Text → Option Json
ollama_loads t =
    if text_eq t (codes "A")
    then some (obj (field (codes "response") (str (codes "Hi")) end))
    else if text_eq t (codes "Z")
    then some (obj (field (codes "done") (bool true) end))
    else none

abbrev ollama_env : List Event → Env
ollama_env lines = record {
  gap = λ n. suc n * 1000000;
  respond = λ n req. opened lines;
  loads = ollama_loads;
}

abbrev answer : List Event
answer = line (codes "A") ∷ line [] ∷ line (codes "A") ∷ line (codes "Z") ∷ []

-- The same, cut off before the last chunk.
abbrev cut_off : List Event
cut_off = line (codes "A") ∷ line [] ∷ line (codes "A") ∷ []

sample_preview :
    map_ok
      (λ m. m.response_preview)
      (ollama_inference (ollama_env answer) (codes "q") sample_world).0
    ≡ ok (codes "HiHi...")
unfolding ollama_inference chunk_loop ollama_figures ollama_tpot perf_counter urlopen decode strip
    text_eq get field_or truthy join round_div
sample_preview = refl

sample_cut_off :
    (ollama_inference (ollama_env cut_off) (codes "q") sample_world).0 ≡ raised unbound_local_error
unfolding ollama_inference chunk_loop perf_counter urlopen decode strip text_eq get field_or truthy
sample_cut_off = refl

ollama_inference-Outcome_example :
    Outcome
      (sample_world.now + (ollama_env answer).gap sample_world.readings)
      (events_of ((ollama_env answer).respond sample_world.requests (ollama_request (codes "q")))
        >>= parts (ollama_env answer))
      (done_in
        (ollama_env answer)
        (sample_world.now + (ollama_env answer).gap sample_world.readings)
        (suc sample_world.readings)
        (events_of
          ((ollama_env answer).respond sample_world.requests (ollama_request (codes "q")))))
      (ollama_inference (ollama_env answer) (codes "q") sample_world).0
ollama_inference-Outcome_example =
    ollama_inference-Outcome (ollama_env answer) (codes "q") sample_world

nothing_kept : Follows no_tokens no_count
nothing_kept = (refl, refl, omega arith)

chunk_loop-FollowsOn_example :
    FollowsOn
      (chunk_loop (ollama_env answer) token_reader answer no_tokens sample_world)
      (chunk_loop (ollama_env answer) chunk_counter answer no_count sample_world)
chunk_loop-FollowsOn_example =
    chunk_loop-FollowsOn (ollama_env answer) answer no_tokens no_count sample_world nothing_kept
