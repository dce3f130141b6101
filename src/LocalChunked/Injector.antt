-- ===== src/LocalChunked/Injector.antt =====
-- The injector of the older load test, and the numbers that its prompts carry.
use ai_infra_demo.Base.{ℕ, ◌≡◌, refl, Bool, List, [], ◌∷◌, map, count_from}
use ai_infra_demo.Py.Text.{Text}
use ai_infra_demo.Effects.{Env, World}
use ai_infra_demo.Injections.{Entry}
use ai_infra_demo.Injections.Rounds.{rounds_before, IsInjectorRun, inject_loop-IsInjectorRun}
use ai_infra_demo.LocalChunked.{unique_prompt, run_injector}
use ai_infra_demo.LocalChunked.Prompt.{cold_prompt}
use ai_infra_demo.LocalChunked.RequestIds.{request_id, request_id-unique_prompt}

map-request_id : (ns : List ℕ) → map (λ n. request_id (unique_prompt cold_prompt n)) ns ≡ ns
map-request_id [] = refl
map-request_id (n ∷ ns) = rw (request_id-unique_prompt cold_prompt n, map-request_id ns)

-- The older injector runs like the newer one: one request for each round, an entry with the number of the
-- round where it is answered, and no end by a failure. The numbers that the prompts of its requests begin
-- with are those of the rounds.
pub run_injector-ids :
    (env : Env) (url model : Text) (stops : List Bool) (id : ℕ) (entries : List Entry) (w : World)
    → IsInjectorRun env 200
        (unique_prompt cold_prompt)
        url
        model
        stops
        id
        entries
        w
        (run_injector env url model stops id entries w)
      × (map (λ n. request_id (unique_prompt cold_prompt n)) (count_from id (rounds_before stops))
          ≡ count_from id (rounds_before stops))
unfolding run_injector
run_injector-ids env url model stops id entries w = (
  inject_loop-IsInjectorRun env 200 (unique_prompt cold_prompt) url model stops id entries w,
  map-request_id (count_from id (rounds_before stops)),
)
