-- ===== src/ChunkedPrefill/Injector.antt =====
-- The injector survives every failure, and numbers its injections by its rounds.
use ai_infra_demo.Base.{ℕ, Bool, List}
use ai_infra_demo.Py.Text.{Text}
use ai_infra_demo.Effects.{Env, World}
use ai_infra_demo.Injections.{Entry}
use ai_infra_demo.Injections.Rounds.{IsInjectorRun, inject_loop-IsInjectorRun}
use ai_infra_demo.ChunkedPrefill.{run_injector}
use ai_infra_demo.ChunkedPrefill.ColdPrompt.{build_cold_prompt}

-- Each round before the event is seen set sends one request, with a prompt of its own draws, whatever
-- became of those before. A round that the server answers adds one entry, with the number of the
-- round; a round that fails, by the connection or in the response, adds none; and nothing else is
-- added or taken away.
pub run_injector-IsInjected :
    (env : Env) (draws : ℕ → ℕ → ℕ) (url model : Text) (stops : List Bool) (id : ℕ)
    (entries : List Entry) (w : World)
    → IsInjectorRun env 600
        (λ n. build_cold_prompt (draws n))
        url
        model
        stops
        id
        entries
        w
        (run_injector env draws url model stops id entries w)
unfolding run_injector
run_injector-IsInjected env draws url model =
    inject_loop-IsInjectorRun env 600 (λ n. build_cold_prompt (draws n)) url model
