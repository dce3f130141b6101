-- ===== src/Injections/Options.antt =====
-- The command line of load_test_chunked_prefill.py, the same in both versions, and what `__main__`
-- starts.
pub mod Flags
use mathlib.Core.Option
use ai_infra_demo.Base.{Option, none, some, List, [], ◌∷◌, ◌++◌, if◌then◌else◌}
use ai_infra_demo.Base.Int.{ℤ, pos}
use ai_infra_demo.Py.Text.{Text, codes, text_eq}
use ai_infra_demo.Py.Argparse.{Argument, store_one, parse_args, help}
use ai_infra_demo.Chat.Options.{Options, default_options, chat_arguments, chat_url, Launch, launch}

pub data Mode : Type 0 where
  multi_turn mixed : Mode

-- The interval is in nanoseconds.
pub record MixedOptions : Type 0 where
  pub chat : Options
  pub mode : Mode
  pub inject_interval : ℤ

abbrev pub default_mixed : MixedOptions
default_mixed = record {
  chat = default_options;
  mode = multi_turn;
  inject_interval = pos 30000000000;
}

-- `choices=["multi-turn", "mixed"]`
abbrev pub read_mode : Text → Option Mode
read_mode t =
    if text_eq t (codes "multi-turn")
    then some multi_turn
    else if text_eq t (codes "mixed")
    then some mixed
    else none

abbrev pub set_chat : (Options → Options) → MixedOptions → MixedOptions
set_chat change n = record n { chat = change n.chat }

-- The arguments of the injector's thread.
pub record InjectorArgs : Type 0 where
  pub url : Text
  pub model : Text
  pub interval_s : ℤ

-- The injector starts before the pool of sessions, also where that raises.
pub record MixedLaunch : Type 0 where
  pub injector : Option InjectorArgs
  pub sessions : Launch

abbrev pub injector_args : MixedOptions → InjectorArgs
injector_args o = record {
  url = chat_url o.chat.url;
  model = o.chat.model;
  interval_s = o.inject_interval;
}

abbrev pub injector_of : Mode → InjectorArgs → Option InjectorArgs
injector_of multi_turn args = none
injector_of mixed args = some args

abbrev pub start_mixed : MixedOptions → MixedLaunch
start_mixed o = record {
  injector = injector_of o.mode (injector_args o);
  sessions = launch (some o.chat);
}

module _ (read_float : Text → Option ℤ) where
  abbrev pub arguments : List (Argument MixedOptions)
  arguments =
      help
      ++ chat_arguments set_chat read_float
      ++ record {
        flag = codes "--mode";
        store = store_one (λ t n. Option.map (λ m. record n { mode = m }) (read_mode t));
      }
        ∷ record {
          flag = codes "--inject-interval";
          store =
              store_one (λ t n. Option.map (λ d. record n { inject_interval = d }) (read_float t));
        }
        ∷ []

  -- `__main__` up to the sessions, of `sys.argv[1:]`; `none` is SystemExit.
  unfoldable pub mixed_launch : List Text → Option MixedLaunch
  unfolding parse_args
  mixed_launch argv = Option.map start_mixed (parse_args arguments default_mixed argv)
