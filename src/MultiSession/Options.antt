-- ===== src/MultiSession/Options.antt =====
-- The command line of load_test_multi_session.py.
use ai_infra_demo.Base.{Option, List, ◌++◌}
use ai_infra_demo.Base.Int.{ℤ}
use ai_infra_demo.Py.Text.{Text}
use ai_infra_demo.Py.Argparse.{Argument, parse_args, help}
use ai_infra_demo.Chat.Options.{Options, default_options, chat_arguments, Launch, launch}

module _ (read_float : Text → Option ℤ) where
  abbrev pub arguments : List (Argument Options)
  arguments = help ++ chat_arguments (λ change. change) read_float

  -- `__main__` up to the sessions, of `sys.argv[1:]`.
  unfoldable pub main_launch : List Text → Launch
  unfolding launch parse_args
  main_launch argv = launch (parse_args arguments default_options argv)
