-- ===== src/Samples/Sessions.antt =====
-- A chat session of two turns and the injector with the sample server, and the theorems there.
use mathlib.Core.List.{Mem}
use mathlib.Core.List.Perm
use ai_infra_demo.Base.{ℕ, ◌*◌, ◌<◌, ◌⊎◌, some, arith}
use ai_infra_demo.Py.Result.{Error, ok, raised}
use ai_infra_demo.Effects.{Env, World}
use ai_infra_demo.MultiSession.Report.{Report}
use ai_infra_demo.MultiSession.Main.{session_outcome, run_once}
use ai_infra_demo.MultiSession.Main.Requests.{run_once-requests}
use ai_infra_demo.Base.{◌+◌, ◌≡◌, true, false, List, [], ◌∷◌, ◌++◌, map, length, count_from}
use ai_infra_demo.Py.Text.{codes}
use ai_infra_demo.Py.Slices.{slice_to}
use ai_infra_demo.Chat.{Message, system_message, chat_request}
use ai_infra_demo.Chat.Prompts.{IsGrowing}
use ai_infra_demo.Chat.Session.Conversation.{conversation}
use ai_infra_demo.Chat.Session.Asks.{Asks}
use ai_infra_demo.MultiSession.{run_chat_session}
use ai_infra_demo.MultiSession.Turns.{turns}
use ai_infra_demo.MultiSession.Session.{
  Numbers, run_chat_session-Numbers, run_chat_session-IsGrowing,
}
use ai_infra_demo.Injections.Rounds.{IsInjectorRun}
use ai_infra_demo.ChunkedPrefill.ColdPrompt.{build_cold_prompt}
use ai_infra_demo.ChunkedPrefill.{run_injector}
use ai_infra_demo.ChunkedPrefill.Injector.{run_injector-IsInjected}
use ai_infra_demo.Samples.Server.{sample_env, sample_world, sample_args, never}

run_chat_session-Numbers_example :
    Numbers never 1
      (length (slice_to sample_args.max_turns turns))
      sample_world
      (run_chat_session sample_env never sample_args sample_world)
run_chat_session-Numbers_example =
    run_chat_session-Numbers sample_env never sample_args sample_world

abbrev sample_asked : List (List Message)
sample_asked =
    conversation sample_env never 600 sample_args.url sample_args.model 0 sample_world.requests
      (system_message ∷ []) (slice_to sample_args.max_turns turns)

run_chat_session-IsGrowing_example :
    IsGrowing sample_asked
    × ((run_chat_session sample_env never sample_args sample_world).1.sent
        ≡ sample_world.sent
          ++ map (chat_request 600 sample_args.url sample_args.model) sample_asked)
    × Asks 600 sample_args.url sample_args.model
        (slice_to sample_args.max_turns turns)
        (system_message ∷ [])
        sample_world
        (run_chat_session sample_env never sample_args sample_world).1
run_chat_session-IsGrowing_example =
    run_chat_session-IsGrowing sample_env never sample_args sample_world

run_injector-IsInjected_example :
    IsInjectorRun sample_env 600
      (λ n. build_cold_prompt (λ k. n + k))
      (codes "u")
      (codes "m")
      (false ∷ false ∷ true ∷ [])
      0
      []
      sample_world
      (run_injector sample_env
        (λ n k. n + k)
        (codes "u")
        (codes "m")
        (false ∷ false ∷ true ∷ [])
        0
        []
        sample_world)
run_injector-IsInjected_example =
    run_injector-IsInjected sample_env (λ n k. n + k) (codes "u") (codes "m")
      (false ∷ false ∷ true ∷ []) 0 [] sample_world

abbrev sample_envs : ℕ → Env
sample_envs n = sample_env

abbrev sample_threads : ℕ → World
sample_threads n = sample_world

some_turn : 0 < 2 * length (slice_to sample_args.max_turns turns)
unfolding slice_to turns
some_turn = omega arith

-- Session 2 completes first.
run_once-requests_example :
    ((r : Report) × (run_once sample_envs sample_threads sample_args (2 ∷ 1 ∷ []) ≡ ok (some r))
      × (r.requests ≡ 2 * length (slice_to sample_args.max_turns turns)))
    ⊎ ((f : ℕ) × (e : Error) × Mem f (count_from 0 2)
        × (session_outcome sample_envs sample_threads sample_args f ≡ raised e)
        × (run_once sample_envs sample_threads sample_args (2 ∷ 1 ∷ []) ≡ raised e))
run_once-requests_example =
    run_once-requests sample_envs sample_threads sample_args 2 (2 ∷ 1 ∷ []) (Perm.swap 1 2 [])
      some_turn
