-- ===== src/Samples/Server.antt =====
-- A server that streams two tokens, and a clock that advances with every reading.
use ai_infra_demo.Base.{
  ℕ, suc, ◌*◌, Bool, false, Option, none, some, List, [], ◌∷◌, ◌++◌, if◌then◌else◌,
}
use ai_infra_demo.Base.Int.{pos}
use ai_infra_demo.Py.Text.{Text, codes, text_eq}
use ai_infra_demo.Py.Json.{Json, str, arr, obj, nil, cons, end, field}
use ai_infra_demo.Effects.{Event, line, opened, Env, World}
use ai_infra_demo.Chat.Session.{SessionArgs}

-- A chunk with the text where either API has it.
abbrev pub chunk : Text → Json
chunk t =
    let delta = obj (field (codes "content") (str t) end) in
    let choice = obj (field (codes "delta") delta (field (codes "text") (str t) end)) in
    obj (field (codes "choices") (arr (cons choice nil)) end)

-- `A` and `B` stand for the JSON of two chunks.
abbrev pub sample_loads : Text → Option Json
sample_loads t =
    if text_eq t (codes "A")
    then some (chunk (codes "Hi"))
    else if text_eq t (codes "B")
    then some (chunk (codes " all"))
    else none

abbrev pub sample_lines : List Event
sample_lines =
    line (codes "data: A" ++ 10 ∷ [])
    ∷ line (10 ∷ [])
    ∷ line (codes ": ping")
    ∷ line (codes "data: B" ++ 13 ∷ 10 ∷ [])
    ∷ line (codes "data: [DONE]")
    ∷ line (codes "data: C")
    ∷ []

abbrev pub sample_env : Env
sample_env = record {
  gap = λ n. suc n * 1000000;
  respond = λ n req. opened sample_lines;
  loads = sample_loads;
}

abbrev pub sample_world : World
sample_world = record { now = 7; readings = 0; requests = 0; sent = []; pauses = [] }

abbrev pub never : ℕ → Bool
never i = false

abbrev pub sample_args : SessionArgs
sample_args = record {
  session_id = 1;
  url = codes "http://localhost:8000/v1/chat/completions";
  model = codes "m";
  max_turns = pos 2;
  think_time = pos 0;
}
