-- ===== src/Samples/Scripts.antt =====
-- Command lines of the scripts, and the theorems about them.
use mathlib.Core.Option
use ai_infra_demo.Base.{ℕ, ◌≡◌, refl, true, Option, none, some, List, [], ◌∷◌, ◌++◌, All}
use ai_infra_demo.Base.Int.{ℤ, pos}
use ai_infra_demo.Py.Text.{
  Text, codes, text_eq, starts_with, strip, drop_while, drop_last_while, rstrip,
}
use ai_infra_demo.Py.Ints.{read_int, read_signed, read_digits}
use ai_infra_demo.Py.Argparse.{
  parse_args, kind_of, dash_kind, exact, split_eq, option_tuples, abbreviated, split_args,
  take_actions,
}
use ai_infra_demo.Effects.{Request, World}
use ai_infra_demo.Chat.Payload.{IsChatRequest, run_chat_session-IsChatRequest}
use ai_infra_demo.Chat.Options.{chat_url, launch, once}
use ai_infra_demo.Chat.Session.{SessionArgs}
use ai_infra_demo.Completions.Load.{single_request}
use ai_infra_demo.Injections.Options.{InjectorArgs, MixedLaunch, mixed_launch}
use ai_infra_demo.Injections.Options.Flags.{
  going_on, SameServer, launches-continuous, mixed_launch-mode,
}
use ai_infra_demo.LoadTests.{completions_url, ScriptRun}
use ai_infra_demo.LoadTests.Rounds.{LoadOptions, load_arguments, default_load, vllm_script}
use ai_infra_demo.LoadTests.Rounds.Printed.{ScriptShown, vllm_script-ScriptShown}
use ai_infra_demo.MultiSession.{run_chat_session}
use ai_infra_demo.MultiSession.Options.{main_launch}
use ai_infra_demo.Samples.Server.{sample_env, sample_world, sample_args, never}

abbrev pub no_floats : Text → Option ℤ
no_floats t = none

abbrev pub two_turns : List Text
two_turns = codes "--turns" ∷ codes "2" ∷ codes "--mod=m" ∷ []

abbrev pub two_turns_args : SessionArgs
two_turns_args = record {
  session_id = 0;
  url = codes "http://localhost:8000/v1/chat/completions";
  model = codes "m";
  max_turns = pos 2;
  think_time = pos 0;
}

pub two_turns_launch : main_launch no_floats two_turns ≡ once 2 two_turns_args
unfolding main_launch launch chat_url rstrip parse_args kind_of dash_kind exact split_eq
    option_tuples abbreviated split_args take_actions read_int read_signed read_digits strip
    drop_while drop_last_while text_eq starts_with
two_turns_launch = refl

-- `--mod` abbreviates two options of the other script.
ambiguous : mixed_launch no_floats two_turns ≡ none
unfolding mixed_launch parse_args kind_of dash_kind exact split_eq option_tuples abbreviated
    split_args text_eq starts_with
ambiguous = refl

launches-continuous_example :
    (main_launch no_floats (two_turns ++ codes "--continuous" ∷ [])
      ≡ going_on (main_launch no_floats two_turns))
    × (mixed_launch no_floats (two_turns ++ codes "--continuous" ∷ [])
        ≡ Option.map
            (λ (l : MixedLaunch). record l { sessions = going_on l.sessions })
            (mixed_launch no_floats two_turns))
launches-continuous_example = launches-continuous no_floats two_turns

abbrev pub two_sessions : List Text
two_sessions = codes "--turns" ∷ codes "2" ∷ codes "--model=m" ∷ []

abbrev pub two_sessions_launch : MixedLaunch
two_sessions_launch = record { injector = none; sessions = once 2 two_turns_args }

pub two_sessions_launches : mixed_launch no_floats two_sessions ≡ some two_sessions_launch
unfolding mixed_launch launch chat_url rstrip parse_args kind_of dash_kind exact split_eq
    option_tuples abbreviated split_args take_actions read_int read_signed read_digits strip
    drop_while drop_last_while text_eq starts_with
two_sessions_launches = refl

mixed_launch-mode_example :
    (inj : InjectorArgs) × (mixed_launch no_floats
        (two_sessions ++ codes "--mode" ∷ codes "mixed" ∷ [])
      ≡ some (record two_sessions_launch { injector = some inj }))
    × (mixed_launch no_floats (two_sessions ++ codes "--mode" ∷ codes "multi-turn" ∷ [])
        ≡ some (record two_sessions_launch { injector = none }))
    × SameServer inj (once 2 two_turns_args)
mixed_launch-mode_example =
    mixed_launch-mode no_floats two_sessions two_sessions_launch two_sessions_launches

abbrev threads : ℕ → ℕ → ℕ → World
threads k c i = sample_world

abbrev continuous_argv : List Text
continuous_argv = codes "--cont" ∷ codes "--url" ∷ codes "u/" ∷ []

abbrev continuous_options : LoadOptions
continuous_options = record default_load { url = codes "u/"; continuous = true }

continuous_parses : parse_args load_arguments default_load continuous_argv ≡ some continuous_options
unfolding parse_args kind_of dash_kind exact split_eq option_tuples abbreviated split_args
    take_actions text_eq starts_with
continuous_parses = refl

vllm_script-ScriptShown_example :
    (out : ScriptRun × World) × (vllm_script sample_env threads 2 continuous_argv sample_world
      ≡ some out)
    × ScriptShown sample_env
        (λ p. single_request sample_env p (completions_url (codes "u/")) continuous_options.model)
        threads
        true
        2
        sample_world
        out
vllm_script-ScriptShown_example =
    vllm_script-ScriptShown sample_env threads 2 continuous_argv sample_world continuous_options
      continuous_parses

run_chat_session-IsChatRequest_example :
    (new : List Request) × ((run_chat_session sample_env never sample_args sample_world).1.sent
      ≡ sample_world.sent ++ new)
    × All (IsChatRequest 600 sample_args.url sample_args.model) new
run_chat_session-IsChatRequest_example =
    run_chat_session-IsChatRequest sample_env never sample_args sample_world
