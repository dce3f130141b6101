-- ===== src/Ramp/Plan.antt =====
-- `__main__` of ramp_load_test.py as a whole: what it prints first, how long it takes, and the sessions
-- that the processes of its stages run.
use mathlib.Core.Option
use mathlib.Core.List.{map-map}
use ai_infra_demo.Base.{
  ℕ, zero, suc, ◌+◌, ◌*◌, ◌/◌, ◌≤◌, ◌<◌, ◌≡◌, refl, sym, ap, ◌∙◌, false, true, some, List, [], ◌∷◌,
  map, length, drop, arith,
}
use ai_infra_demo.Base.Int.{ℤ, pos, negsuc, pos_part}
use ai_infra_demo.Py.Result.{value_error}
use ai_infra_demo.Py.Text.{Text}
use ai_infra_demo.Py.Argparse.{parse_args}
use ai_infra_demo.Py.Argparse.Laws.{begins_with_dash}
use ai_infra_demo.Chat.Options.{Launch, launch_raised, until_interrupt, launch, chat_url}
use ai_infra_demo.MultiSession.Options.{main_launch}
use ai_infra_demo.Ramp.{RampArgs, Child, Stage, stage_command, child_argv, run_ramp}
use ai_infra_demo.Ramp.Options.{
  RampOptions, default_options, Floats, arguments, stage_args, ramp_main, RampRun, minutes, times,
}
use ai_infra_demo.Ramp.Schedule.{
  total_elapsed, RunsOn, run_ramp_commands, run_ramp_upper, run_ramp_lower,
}
use ai_infra_demo.Ramp.Children.{parse-child_argv}

minutes_lower : (n d t : ℕ) → n * d ≤ t → 60 * (n * d / 60) ≤ t
minutes_lower n d t h = omega arith

minutes_upper : (n d t : ℕ) → t ≤ n * (d + 15) → t < 60 * (n * d / 60) + 60 + 15 * n
minutes_upper n d t h = omega arith

-- What `__main__` of a child with concurrency c goes on to do, where its options are those of the ramp.
abbrev pub stage_launch : RampOptions → ℤ → Launch
stage_launch o (pos (suc n)) = until_interrupt (suc n) (record {
  session_id = 0;
  url = chat_url o.url;
  model = o.model;
  max_turns = o.turns;
  think_time = o.think_time;
})
stage_launch o _ = launch_raised value_error

module _ (floats : Floats) (executable script : Text) where
  -- The options that a command line gives, with what the ramp prints and runs.
  ramp_main-accepted :
      (children : ℕ → Child) (argv : List Text) (o : RampOptions)
      → parse_args (arguments floats) default_options argv ≡ some o
      → ramp_main floats executable script children argv
        ≡ some (record {
          planned = minutes (times (length o.stages) o.duration);
          stages = run_ramp (stage_args floats executable script o) children 0 o.stages;
        })
  unfolding ramp_main
  ramp_main-accepted children argv o e = ap (Option.map _) e

  -- Every command line that the ramp accepts starts one process for each stage, in order, and the ramp
  -- ends whatever they do: after at most the duration and 15 seconds for each stage, where a negative
  -- duration counts as 0.
  pub ramp_main-ends :
      (children : ℕ → Child) (argv : List Text) (o : RampOptions)
      → parse_args (arguments floats) default_options argv ≡ some o
      → (run : RampRun) × (ramp_main floats executable script children argv ≡ some run)
        × (map (λ (s : Stage). s.command) run.stages
            ≡ map (stage_command (stage_args floats executable script o)) o.stages)
        × (total_elapsed run.stages ≤ length o.stages * (pos_part o.duration + 15))
  ramp_main-ends children argv o e = (
    _,
    ramp_main-accepted children argv o e,
    run_ramp_commands (stage_args floats executable script o) children 0 o.stages,
    run_ramp_upper (stage_args floats executable script o) children 0 o.stages,
  )

  -- Where the duration d is not negative and no child ends of itself, the plan's minutes are right: the
  -- ramp takes at least these, and less than a minute and 15 seconds for each stage more.
  pub ramp_main-planned :
      (children : ℕ → Child) (argv : List Text) (o : RampOptions) (d : ℕ)
      → parse_args (arguments floats) default_options argv ≡ some o
      → o.duration ≡ pos d
      → ((k : ℕ) → RunsOn (children k))
      → (run : RampRun) × (m : ℕ) × (ramp_main floats executable script children argv ≡ some run)
        × (run.planned ≡ pos m)
        × (60 * m ≤ total_elapsed run.stages)
        × (total_elapsed run.stages < 60 * m + 60 + 15 * length o.stages)
  ramp_main-planned children argv o d e not_negative on =
      let upper = run_ramp_upper (stage_args floats executable script o) children 0 o.stages in
      let lower = run_ramp_lower (stage_args floats executable script o) children 0 o.stages on in
      let d_is = ap pos_part not_negative in
      (
        _,
        length o.stages * d / 60,
        ramp_main-accepted children argv o e,
        ap (λ z. minutes (times (length o.stages) z)) not_negative,
        minutes_lower (length o.stages) d _ (rw (sym d_is) lower),
        minutes_upper (length o.stages) d _ (rw (sym d_is) upper),
      )

  launch_continuous :
      (o : RampOptions) (c : ℤ)
      → launch (
          some (record {
            url = o.url;
            model = o.model;
            turns = o.turns;
            concurrency = c;
            think_time = o.think_time;
            continuous = true;
          }))
        ≡ stage_launch o c
  unfolding launch
  launch_continuous o (pos zero) = refl
  launch_continuous o (pos (suc n)) = refl
  launch_continuous o (negsuc n) = refl

  child_launch :
      (o : RampOptions) (c : ℤ)
      → begins_with_dash o.url ≡ false
      → begins_with_dash o.model ≡ false
      → begins_with_dash (floats.show o.think_time) ≡ false
      → floats.read (floats.show o.think_time) ≡ some o.think_time
      → main_launch floats.read (child_argv (stage_args floats executable script o) c)
        ≡ stage_launch o c
  unfolding main_launch launch
  child_launch o c url_plain model_plain time_plain reads =
      ap launch (
        parse-child_argv floats.read (stage_args floats executable script o) c o.think_time
          url_plain model_plain time_plain reads)
      ∙ launch_continuous o c

  launches :
      (o : RampOptions) (cs : List ℤ)
      → begins_with_dash o.url ≡ false
      → begins_with_dash o.model ≡ false
      → begins_with_dash (floats.show o.think_time) ≡ false
      → floats.read (floats.show o.think_time) ≡ some o.think_time
      → map
          (λ (argv : List Text). main_launch floats.read (drop 2 argv))
          (map (stage_command (stage_args floats executable script o)) cs)
        ≡ map (stage_launch o) cs
  unfolding stage_command
  launches o [] url_plain model_plain time_plain reads = refl
  launches o (c ∷ cs) url_plain model_plain time_plain reads =
      rw
        (
          child_launch o c url_plain model_plain time_plain reads,
          launches o cs url_plain model_plain time_plain reads,
        )
        refl

  -- Where the URL, the model and the printed think time do not begin with a dash and `float` reads back
  -- what `str` printed, the process of each stage runs as many sessions at a time as the stage says,
  -- until Ctrl-C, with the URL, model, turns and think time of the ramp; one with a concurrency below
  -- 1 raises ValueError.
  pub main_launch-stage_command :
      (children : ℕ → Child) (argv : List Text) (o : RampOptions)
      → parse_args (arguments floats) default_options argv ≡ some o
      → begins_with_dash o.url ≡ false
      → begins_with_dash o.model ≡ false
      → begins_with_dash (floats.show o.think_time) ≡ false
      → floats.read (floats.show o.think_time) ≡ some o.think_time
      → (run : RampRun) × (ramp_main floats executable script children argv ≡ some run)
        × (map (λ (s : Stage). main_launch floats.read (drop 2 s.command)) run.stages
            ≡ map (stage_launch o) o.stages)
  main_launch-stage_command children argv o e url_plain model_plain time_plain reads = (
    _,
    ramp_main-accepted children argv o e,
    sym (map-map launched (λ (s : Stage). s.command) (run_ramp args children 0 o.stages))
        ∙ ap (map launched) (run_ramp_commands args children 0 o.stages)
        ∙ launches o o.stages url_plain model_plain time_plain reads,
  )
    where
      args : RampArgs
      args = stage_args floats executable script o

      launched : List Text → Launch
      launched argv = main_launch floats.read (drop 2 argv)
