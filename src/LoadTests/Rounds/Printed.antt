-- ===== src/LoadTests/Rounds/Printed.antt =====
-- What the load tests print with `--continuous`.
use mathlib.Core.Path.{subst}
use mathlib.Core.Option
use ai_infra_demo.Base.{
  ℕ, zero, suc, ◌≡◌, refl, ap, ◌∙◌, ◌⊎◌, inl, inr, Bool, true, false, some, List, [], ◌∷◌, ◌++◌,
  arith,
}
use ai_infra_demo.Base.Int.{ℤ, pos}
use ai_infra_demo.Py.Result.{Error, Result, ok, raised}
use ai_infra_demo.Py.Text.{Text}
use ai_infra_demo.Effects.{Env, World, Action, perf_counter}
use ai_infra_demo.Py.Argparse.{parse_args}
use ai_infra_demo.LocalCompletions
use ai_infra_demo.Completions.Load.{Single, LoadReport, load_test, run_load_test, single_request}
use ai_infra_demo.LoadTests.{ScriptRun, load_tests, after_test, concurrencies, completions_url}
use ai_infra_demo.LoadTests.Printed.{Printed, load_tests-Printed, few_at_once}
use ai_infra_demo.LoadTests.Rounds.{
  rounds, after_round, sleep_5, LoadOptions, default_load, load_arguments, local_load_arguments,
  run_tests, vllm_script, local_vllm_script,
}

module _ (env : Env) (request : Text → Action Single) where
  load_test_pauses :
      (threads : ℕ → World) (c : ℕ) (w : World)
      → (load_test env request threads c w).1.pauses ≡ w.pauses
  unfolding load_test perf_counter
  load_test_pauses threads c w = ground arith

  after_test_pauses :
      (o : Result LoadReport × World) (next : World → ScriptRun × World)
      → ((u : World) → (next u).1.pauses ≡ u.pauses)
      → (after_test o next).1.pauses ≡ o.1.pauses
  after_test_pauses (ok r, u) next keeps = keeps u
  after_test_pauses (raised e, u) next keeps = refl

  load_tests_pauses :
      (threads : ℕ → ℕ → World) (cs : List ℕ) (w : World)
      → (load_tests (λ c. load_test env request (threads c) c) cs w).1.pauses ≡ w.pauses
  unfolding load_tests
  load_tests_pauses threads [] w = refl
  load_tests_pauses threads (c ∷ cs) w =
      after_test_pauses (load_test env request (threads c) c w) _ (load_tests_pauses threads cs)
      ∙ load_test_pauses (threads c) c w

module _ (env : Env) (request : Text → Action Single) (threads : ℕ → ℕ → ℕ → World) where
  abbrev tests : ℕ → ℕ → Action LoadReport
  tests k c = load_test env request (threads k c) c

  -- The reports of the rounds from k on, and the pauses before and after: each round prints the tests of
  -- 1, 2 and 4 requests and pauses for five seconds, up to one in which a request raised.
  abbrev pub RoundsPrinted : ℕ → ℕ → List ℤ → ScriptRun → List ℤ → Type 0
  RoundsPrinted k zero before (reports, end) after =
      (reports ≡ []) × (end ≡ ok tt) × (after ≡ before)
  RoundsPrinted k (suc n) before (reports, end) after =
      ((first : List LoadReport) × (later : List LoadReport) × (reports ≡ first ++ later)
        × Printed env request (threads k) concurrencies (first, ok tt)
        × RoundsPrinted (suc k) n (before ++ pos 5000000000 ∷ []) (later, end) after)
      ⊎ ((e : Error) × Printed env request (threads k) concurrencies (reports, raised e)
          × (end ≡ raised e)
          × (after ≡ before))

  abbrev Shown : ℕ → ℕ → List ℤ → ScriptRun × World → Type 0
  Shown k n before (run, w) = RoundsPrinted k n before run w.pauses

  after_round-Shown :
      (k n : ℕ) (before : List ℤ) (out : ScriptRun × World) (next : World → ScriptRun × World)
      → Printed env request (threads k) concurrencies out.0
      → out.1.pauses ≡ before
      → ((u : World) → Shown (suc k) n u.pauses (next u))
      → Shown k (suc n) before (after_round out next)
  after_round-Shown k n before ((reports, ok tt), u) next printed keeps later = inl (
    reports,
    _,
    refl,
    printed,
    subst (λ ps. Shown (suc k) n (ps ++ pos 5000000000 ∷ []) (next (sleep_5 u))) keeps
        (later (sleep_5 u)),
  )
  after_round-Shown k n before ((reports, raised e), u) next printed keeps later =
      inr (e, printed, refl, keeps)

  pub rounds-RoundsPrinted :
      (k n : ℕ) (w : World)
      → RoundsPrinted k n w.pauses (rounds tests k n w).0 (rounds tests k n w).1.pauses
  unfolding rounds
  rounds-RoundsPrinted k zero w = (refl, refl, refl)
  rounds-RoundsPrinted k (suc n) w =
      after_round-Shown k n w.pauses (load_tests (tests k) concurrencies w) (rounds tests (suc k) n)
        (load_tests-Printed env request (threads k) concurrencies w few_at_once)
        (load_tests_pauses env request (threads k) concurrencies w) (rounds-RoundsPrinted (suc k) n)

  -- What the script shows with and without `--continuous`.
  abbrev pub ScriptShown : Bool → ℕ → World → ScriptRun × World → Type 0
  ScriptShown true n w (run, u) = RoundsPrinted 0 n w.pauses run u.pauses
  ScriptShown false n w (run, u) =
      Printed env request (threads 0) concurrencies run × (u.pauses ≡ w.pauses)

  pub run_tests-ScriptShown :
      (continuous : Bool) (n : ℕ) (w : World)
      → ScriptShown continuous n w (run_tests tests continuous n w)
  unfolding run_tests
  run_tests-ScriptShown true n w = rounds-RoundsPrinted 0 n w
  run_tests-ScriptShown false n w = (
    load_tests-Printed env request (threads 0) concurrencies w few_at_once,
    load_tests_pauses env request (threads 0) concurrencies w,
  )

module _ (env : Env) (threads : ℕ → ℕ → ℕ → World) (n : ℕ) where
  -- Of every command line that load_test_vllm.py accepts: without `--continuous` it prints the reports of
  -- 1, 2 and 4 requests at once and makes no pause; with it, each of the first n rounds prints them and
  -- pauses for five seconds. A request that raised ends the script by its exception, after the reports
  -- before it.
  pub vllm_script-ScriptShown :
      (argv : List Text) (w : World) (o : LoadOptions)
      → parse_args load_arguments default_load argv ≡ some o
      → (out : ScriptRun × World) × (vllm_script env threads n argv w ≡ some out)
        × ScriptShown env
            (λ p. single_request env p (completions_url o.url) o.model)
            threads
            o.continuous
            n
            w
            out
  unfolding vllm_script run_load_test
  vllm_script-ScriptShown argv w o e = (
    _,
    ap (Option.map _) e,
    run_tests-ScriptShown env (λ p. single_request env p (completions_url o.url) o.model) threads
        o.continuous n w,
  )

  -- The same of the local copy.
  pub local_vllm_script-ScriptShown :
      (argv : List Text) (w : World) (continuous : Bool)
      → parse_args local_load_arguments false argv ≡ some continuous
      → (out : ScriptRun × World) × (local_vllm_script env threads n argv w ≡ some out)
        × ScriptShown env (LocalCompletions.single_request env) threads continuous n w out
  unfolding local_vllm_script LocalCompletions.run_load_test
  local_vllm_script-ScriptShown argv w continuous e = (
    _,
    ap (Option.map _) e,
    run_tests-ScriptShown env (LocalCompletions.single_request env) threads continuous n w,
  )
