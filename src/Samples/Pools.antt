-- ===== src/Samples/Pools.antt =====
-- Two sessions in a pool and three completion requests at once, and the theorems there.
use mathlib.Core.List.Perm
use ai_infra_demo.Base.{ℕ, ◌≡◌, ◌≢◌, ◌<◌, refl, List, [], ◌∷◌, arith}
use ai_infra_demo.Py.Result.{Result, ok}
use ai_infra_demo.Py.Text.{codes}
use ai_infra_demo.Effects.{World}
use ai_infra_demo.Inference.{timed_request}
use ai_infra_demo.Sse.{completion_text}
use ai_infra_demo.Pool.{Pool, no_sessions, new_session, add_session, start, read_done}
use ai_infra_demo.Pool.Runs.{Run, started, waited, read, IsKept, Run-IsKept}
use ai_infra_demo.Pool.Progress.{Goes, Run-Goes}
use ai_infra_demo.Completions.{completion_request}
use ai_infra_demo.Completions.Load.{single_request}
use ai_infra_demo.Completions.Load.Counts.{single_of, bind_action, single_request-counts}
use ai_infra_demo.Samples.Server.{sample_env, sample_world}

-- Session n returns the rows n and n again.
abbrev sample_outcome : ℕ → Result (List ℕ)
sample_outcome n = ok (n ∷ n ∷ [])

abbrev two_sessions : Pool ℕ
two_sessions = record { session_counter = 2; active = 1 ∷ 2 ∷ []; done = []; all_results = [] }

abbrev second_done : Pool ℕ
second_done = record { session_counter = 2; active = 1 ∷ []; done = 2 ∷ []; all_results = [] }

-- After session 2 has been read and session 3 has taken its place.
abbrev second_read : Pool ℕ
second_read = record {
  session_counter = 3;
  active = 1 ∷ 3 ∷ [];
  done = [];
  all_results = 2 ∷ 2 ∷ [];
}

start_two : start 2 no_sessions ≡ two_sessions
unfolding start add_session new_session
start_two = refl

two_asked : 0 < 2
two_asked = omega arith

some_done : ◌≢◌ {A = List ℕ} (2 ∷ []) []
some_done q = cc

read_second : read_done sample_outcome 2 [] second_done ≡ ok second_read
unfolding read_done add_session new_session
read_second = refl

second_read-Run : Run sample_outcome 2 second_read (2 ∷ [])
unfolding start add_session new_session
second_read-Run =
    read 2 (waited (2 ∷ []) (1 ∷ []) started refl some_done (Perm.swap 1 2 [])) refl read_second

Run-IsKept_example : IsKept sample_outcome 2 second_read (2 ∷ [])
Run-IsKept_example = Run-IsKept sample_outcome 2 second_read-Run

sample_returns : (f : ℕ) → (rows : List ℕ) × (sample_outcome f ≡ ok rows)
sample_returns f = (f ∷ f ∷ [], refl)

Run-Goes_example : Goes sample_outcome 2 sample_returns two_asked (2 ∷ []) 5
Run-Goes_example =
    Run-Goes sample_outcome 2 sample_returns two_asked second_read (2 ∷ []) 5 second_read-Run

single_request-counts_example :
    single_request sample_env (codes "q") (codes "u") (codes "m") sample_world
    ≡ bind_action
        (timed_request sample_env completion_text
          (completion_request (codes "q") (codes "u") (codes "m"))
          sample_world)
        single_of
single_request-counts_example =
    single_request-counts sample_env (codes "q") (codes "u") (codes "m") sample_world

abbrev threads : ℕ → World
threads i = sample_world
