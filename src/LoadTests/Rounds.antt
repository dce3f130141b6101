-- ===== src/LoadTests/Rounds.antt =====
-- `--continuous` of kv-inference/scripts/nebius-2-vllm-w-observ/load_test_vllm.py and of its local copy,
-- and the whole `__main__` of both.
pub mod Printed
use mathlib.Core.Option
use ai_infra_demo.Base.{
  ℕ, zero, suc, Bool, true, false, Option, none, some, List, [], ◌∷◌, ◌++◌, if◌then◌else◌,
}
use ai_infra_demo.Base.Int.{pos}
use ai_infra_demo.Py.Result.{ok, raised}
use ai_infra_demo.Py.Text.{Text, codes}
use ai_infra_demo.Py.Argparse.{Argument, store_one, store_true, parse_args, help}
use ai_infra_demo.Effects.{Env, World, Action}
use ai_infra_demo.Completions.Load.{LoadReport, run_load_test}
use ai_infra_demo.LocalCompletions
use ai_infra_demo.LoadTests.{ScriptRun, load_tests, concurrencies, completions_url}

-- `time.sleep(5)`
abbrev pub sleep_5 : World → World
sleep_5 w = record w { pauses = w.pauses ++ pos 5000000000 ∷ [] }

-- A round of tests that ended by itself is followed by the pause and the next round.
abbrev pub after_round : ScriptRun × World → (World → ScriptRun × World) → ScriptRun × World
after_round ((reports, ok tt), w) next =
    let ((later, end), u) = next (sleep_5 w) in ((reports ++ later, end), u)
after_round ((reports, raised e), w) next = ((reports, raised e), w)

-- The first n rounds of `while True`, from round k on.
unfoldable pub rounds : (ℕ → ℕ → Action LoadReport) → ℕ → ℕ → World → ScriptRun × World
unfolding load_tests
rounds run k zero w = (([], ok tt), w)
rounds run k (suc n) w = after_round (load_tests (run k) concurrencies w) (rounds run (suc k) n)

pub record LoadOptions : Type 0 where
  pub url : Text
  pub model : Text
  pub continuous : Bool

abbrev pub default_load : LoadOptions
default_load = record {
  url = codes "http://localhost:8000";
  model = codes "mlx-community/Qwen2.5-0.5B-Instruct-4bit";
  continuous = false;
}

abbrev pub load_arguments : List (Argument LoadOptions)
load_arguments =
    help
    ++ record { flag = codes "--url"; store = store_one (λ t n. some (record n { url = t })) }
      ∷ record { flag = codes "--model"; store = store_one (λ t n. some (record n { model = t })) }
      ∷ record {
        flag = codes "--continuous";
        store = store_true (λ n. record n { continuous = true });
      }
      ∷ []

-- The local copy has the one option.
abbrev pub local_load_arguments : List (Argument Bool)
local_load_arguments =
    help ++ record { flag = codes "--continuous"; store = store_true (λ n. true) } ∷ []

-- Either form of `__main__`, where the loop is looked at after n rounds.
unfoldable pub run_tests : (ℕ → ℕ → Action LoadReport) → Bool → ℕ → World → ScriptRun × World
unfolding rounds
run_tests run continuous n w =
    if continuous then rounds run 0 n w else load_tests (run 0) concurrencies w

-- `threads k c` are the worlds of the requests in the test of concurrency c in round k; `none` is
-- SystemExit.
module _ (env : Env) (threads : ℕ → ℕ → ℕ → World) (n : ℕ) where
  unfoldable pub vllm_script : List Text → World → Option (ScriptRun × World)
  unfolding run_tests parse_args completions_url
  vllm_script argv w =
      Option.map
        (λ (o : LoadOptions).
          run_tests (λ k c. run_load_test env (threads k c) c (completions_url o.url) o.model)
            o.continuous n w)
        (parse_args load_arguments default_load argv)

  unfoldable pub local_vllm_script : List Text → World → Option (ScriptRun × World)
  unfolding run_tests parse_args
  local_vllm_script argv w =
      Option.map
        (λ continuous.
          run_tests (λ k c. LocalCompletions.run_load_test env (threads k c) c) continuous n w)
        (parse_args local_load_arguments false argv)
