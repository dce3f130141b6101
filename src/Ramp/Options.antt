-- ===== src/Ramp/Options.antt =====
-- The command line of ramp_load_test.py, and its `__main__`.
use mathlib.Core.Option
use ai_infra_demo.Base.{ℕ, zero, suc, ◌+◌, ◌*◌, ◌/◌, Option, some, List, [], ◌∷◌, ◌++◌, length}
use ai_infra_demo.Base.Int.{ℤ, pos, negsuc}
use ai_infra_demo.Py.Text.{Text, codes}
use ai_infra_demo.Py.Ints.{read_int}
use ai_infra_demo.Py.Argparse.{Argument, store_one, store_some, and_then, parse_args, help}
use ai_infra_demo.Ramp.{RampArgs, Child, Stage, run_ramp}

pub record RampOptions : Type 0 where
  pub url : Text
  pub model : Text
  pub stages : List ℤ
  pub duration : ℤ
  pub turns : ℤ
  pub think_time : ℤ

abbrev pub default_options : RampOptions
default_options = record {
  url = codes "http://localhost:8000";
  model = codes "qwen-7b";
  stages = pos 4 ∷ pos 8 ∷ pos 16 ∷ [];
  duration = pos 300;
  turns = pos 15;
  think_time = pos 500000000;
}

-- Each value of `--stages` is read by `int`.
unfoldable pub read_ints : List Text → Option (List ℤ)
unfolding read_int
read_ints [] = some []
read_ints (t ∷ ts) = and_then (read_int t) (λ n. Option.map (λ ns. n ∷ ns) (read_ints ts))

-- `read` is `float(t)` in nanoseconds, `none` where it raises ValueError, and `show` is `str` of a
-- float.
pub record Floats : Type 0 where
  pub read : Text → Option ℤ
  pub show : ℤ → Text

-- n // 60
abbrev pub minutes : ℤ → ℤ
minutes (pos n) = pos (n / 60)
minutes (negsuc n) = negsuc (n / 60)

-- n * z
abbrev pub times : ℕ → ℤ → ℤ
times n (pos k) = pos (n * k)
times zero (negsuc k) = pos 0
times (suc n) (negsuc k) = negsuc (k + n * suc k)

-- The plan's minutes as they are printed first, and the stages.
pub record RampRun : Type 0 where
  pub planned : ℤ
  pub stages : List Stage

module _ (floats : Floats) where
  abbrev pub arguments : List (Argument RampOptions)
  arguments =
      help
      ++ record { flag = codes "--url"; store = store_one (λ t n. some (record n { url = t })) }
        ∷ record {
          flag = codes "--model";
          store = store_one (λ t n. some (record n { model = t }));
        }
        ∷ record {
          flag = codes "--stages";
          store = store_some (λ ts n. Option.map (λ cs. record n { stages = cs }) (read_ints ts));
        }
        ∷ record {
          flag = codes "--duration";
          store = store_one (λ t n. Option.map (λ d. record n { duration = d }) (read_int t));
        }
        ∷ record {
          flag = codes "--turns";
          store = store_one (λ t n. Option.map (λ k. record n { turns = k }) (read_int t));
        }
        ∷ record {
          flag = codes "--think-time";
          store = store_one (λ t n. Option.map (λ d. record n { think_time = d }) (floats.read t));
        }
        ∷ []

  module _ (executable script : Text) where
    abbrev pub stage_args : RampOptions → RampArgs
    stage_args o = record {
      executable = executable;
      script = script;
      url = o.url;
      model = o.model;
      duration = o.duration;
      turns = o.turns;
      think_time = floats.show o.think_time;
    }

    -- `__main__` of `sys.argv[1:]`; `none` is SystemExit.
    unfoldable pub ramp_main : (ℕ → Child) → List Text → Option RampRun
    unfolding run_ramp parse_args
    ramp_main children argv =
        Option.map
          (λ (o : RampOptions). record {
            planned = minutes (times (length o.stages) o.duration);
            stages = run_ramp (stage_args o) children 0 o.stages;
          })
          (parse_args arguments default_options argv)
