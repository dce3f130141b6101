-- ===== src/Samples/Ramps.antt =====
-- A ramp of two stages, and the theorems about ramps there.
use ai_infra_demo.Base.{
  ℕ, ◌+◌, ◌*◌, ◌≤◌, ◌<◌, ◌≡◌, refl, none, some, List, [], ◌∷◌, map, drop, if◌then◌else◌,
}
use ai_infra_demo.Base.Int.{pos}
use ai_infra_demo.Py.Text.{Text, codes, text_eq, starts_with, strip, drop_while, drop_last_while}
use ai_infra_demo.Py.Ints.{read_int, read_signed, read_digits}
use ai_infra_demo.Py.Argparse.{
  parse_args, kind_of, dash_kind, exact, split_eq, option_tuples, abbreviated, split_args,
  take_actions,
}
use ai_infra_demo.MultiSession.Options.{main_launch}
use ai_infra_demo.Ramp.{stage_command, Child, Stage, run_stage, run_ramp, wait_for}
use ai_infra_demo.Ramp.Options.{
  Floats, RampOptions, RampRun, default_options, arguments, stage_args, ramp_main, read_ints,
}
use ai_infra_demo.Ramp.Schedule.{total_elapsed, RunsOn}
use ai_infra_demo.Ramp.Plan.{
  ramp_main-ends, ramp_main-planned, stage_launch, main_launch-stage_command,
}

-- A `float` that reads one number, and a `str` that prints it.
abbrev half_second : Floats
half_second = record {
  read = λ t. if text_eq t (codes "0.5") then some (pos 500000000) else none;
  show = λ d. codes "0.5";
}

abbrev ramp_argv : List Text
ramp_argv =
    codes "--stages"
    ∷ codes "2"
    ∷ codes "4"
    ∷ codes "--url=http://node:30800/"
    ∷ codes "--dur"
    ∷ codes "60"
    ∷ []

abbrev ramp_options : RampOptions
ramp_options = record {
  url = codes "http://node:30800/";
  model = codes "qwen-7b";
  stages = pos 2 ∷ pos 4 ∷ [];
  duration = pos 60;
  turns = pos 15;
  think_time = pos 500000000;
}

abbrev python : Text
python = codes "python"

abbrev script : Text
script = codes "load_test_multi_session.py"

-- Children that run on and answer an interrupt after five seconds for each stage before them.
abbrev children : ℕ → Child
children i = record { by_itself = none; after_interrupt = some (5 * (i + 1)) }

ramp_argv_parses : parse_args (arguments half_second) default_options ramp_argv ≡ some ramp_options
unfolding parse_args kind_of dash_kind exact split_eq option_tuples abbreviated split_args
    take_actions read_ints read_int read_signed read_digits strip drop_while drop_last_while text_eq
    starts_with
ramp_argv_parses = refl

-- The stages take 65 and 70 seconds.
sample_ramp :
    total_elapsed
      (run_ramp (stage_args half_second python script ramp_options) children 0 (pos 2 ∷ pos 4 ∷ []))
    ≡ 135
unfolding run_ramp run_stage wait_for
sample_ramp = refl

children_on : (i : ℕ) → RunsOn (children i)
children_on i = refl

ramp_main-ends_example :
    (run : RampRun) × (ramp_main half_second python script children ramp_argv ≡ some run)
    × (map (λ (s : Stage). s.command) run.stages
        ≡ map
            (stage_command (stage_args half_second python script ramp_options))
            (pos 2 ∷ pos 4 ∷ []))
    × (total_elapsed run.stages ≤ 2 * (60 + 15))
ramp_main-ends_example =
    ramp_main-ends half_second python script children ramp_argv ramp_options ramp_argv_parses

ramp_main-planned_example :
    (run : RampRun) × (m : ℕ) × (ramp_main half_second python script children ramp_argv ≡ some run)
    × (run.planned ≡ pos m)
    × (60 * m ≤ total_elapsed run.stages)
    × (total_elapsed run.stages < 60 * m + 60 + 15 * 2)
ramp_main-planned_example =
    ramp_main-planned half_second python script children ramp_argv ramp_options 60 ramp_argv_parses
      refl children_on

half_second_reads : half_second.read (half_second.show (pos 500000000)) ≡ some (pos 500000000)
unfolding text_eq
half_second_reads = refl

main_launch-stage_command_example :
    (run : RampRun) × (ramp_main half_second python script children ramp_argv ≡ some run)
    × (map (λ (s : Stage). main_launch half_second.read (drop 2 s.command)) run.stages
        ≡ map (stage_launch ramp_options) (pos 2 ∷ pos 4 ∷ []))
main_launch-stage_command_example =
    main_launch-stage_command half_second python script children ramp_argv ramp_options
      ramp_argv_parses refl refl refl half_second_reads
