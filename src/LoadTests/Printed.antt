-- ===== src/LoadTests/Printed.antt =====
-- What the load tests print.
use mathlib.Core.Path.{subst}
use ai_infra_demo.Base.{
  ℕ, ◌<◌, ◌≤◌, ◌≡◌, refl, sym, ap, ◌⊎◌, inl, inr, List, [], ◌∷◌, All, take, arith,
}
use ai_infra_demo.Py.Result.{Error, Result, ok, raised}
use ai_infra_demo.Py.Text.{Text}
use ai_infra_demo.Effects.{Env, World, Action}
use ai_infra_demo.Completions.Load.{
  Single, single_request, load_prompts, repeat, map_requests, LoadReport, load_test, run_load_test,
}
use ai_infra_demo.Completions.Load.Figures.{Prints, load_test-few}
use ai_infra_demo.LocalCompletions
use ai_infra_demo.Ollama.{ollama_single}
use ai_infra_demo.LoadTests.{
  ScriptRun, load_tests, after_test, concurrencies, completions_url, ollama_load_test, vllm_main,
  local_vllm_main, ollama_main,
}

after_test_ok :
    (o : Result LoadReport × World) (next : World → ScriptRun × World) (out : LoadReport)
    → o.0 ≡ ok out
    → (after_test o next).0 ≡ (out ∷ (next o.1).0.0, (next o.1).0.1)
after_test_ok (ok r, w) next out e =
    ap (λ x. (x ∷ (next w).0.0, (next w).0.1)) (ok-injective r out e)
  where
    ok-injective : (x y : LoadReport) → ok x ≡ ok y → x ≡ y
    ok-injective x y p = cc
after_test_ok (raised x, w) next out e = cc

after_test_raised :
    (o : Result LoadReport × World) (next : World → ScriptRun × World) (x : Error)
    → o.0 ≡ raised x
    → (after_test o next).0 ≡ ([], raised x)
after_test_raised (ok r, w) next x e = cc
after_test_raised (raised y, w) next x e = ap (λ f. ([], raised f)) (raised-injective y x e)
  where
    raised-injective : (a b : Error) → ◌≡◌ {A = Result LoadReport} (raised a) (raised b) → a ≡ b
    raised-injective a b p = cc

module _ (env : Env) (request : Text → Action Single) (threads : ℕ → ℕ → World) where
  -- The reports of the tests in order, each of the results of its requests, up to one of which a
  -- request raised an exception, which the script ends with.
  abbrev pub Printed : List ℕ → ScriptRun → Type 0
  Printed [] (reports, end) = (reports ≡ []) × (end ≡ ok tt)
  Printed (c ∷ cs) (reports, end) =
      ((results : List Single) × (out : LoadReport) × (rest : List LoadReport) × (map_requests
            request (threads c) 0 (take c (repeat load_prompts 10))
          ≡ ok results)
        × (reports ≡ out ∷ rest)
        × Prints c results out
        × Printed cs (rest, end))
      ⊎ ((e : Error) × (p : Text) × (j : ℕ) × ((request p (threads c j)).0 ≡ raised e)
          × (reports ≡ [])
          × (end ≡ raised e))

  pub load_tests-Printed :
      (cs : List ℕ) (w : World)
      → All (λ c. 0 < c × c ≤ 20) cs
      → Printed cs (load_tests (λ c. load_test env request (threads c) c) cs w).0
  unfolding load_tests
  load_tests-Printed [] w few = (refl, refl)
  load_tests-Printed (c ∷ cs) w ((some_one, below), few) =
      elim (load_test-few env request (threads c) c w some_one below) [
        | inl (results, out, e, printed, figures) ↦
            subst (Printed (c ∷ cs)) (sym (after_test_ok _ _ out printed))
              (inl (results, out, _, e, refl, figures, load_tests-Printed cs _ few))
        | inr (e, p, j, failed, ends) ↦
            subst (Printed (c ∷ cs)) (sym (after_test_raised _ _ e ends))
              (inr (e, p, j, failed, refl, refl))
      ]

pub few_at_once : All (λ c. 0 < c × c ≤ 20) concurrencies
few_at_once =
    ((omega arith, omega arith), ((omega arith, omega arith), ((omega arith, omega arith), tt)))

-- The three scripts print the reports of 1, 2 and 4 requests at once in this order, each with the
-- median of its requests as p50 and their maximum as p95, up to a test in which a request raised an
-- exception, which ends the script.
pub mains-Printed :
    (env : Env) (threads : ℕ → ℕ → World) (url model : Text) (w : World)
    → Printed env
        (λ p. single_request env p (completions_url url) model)
        threads
        concurrencies
        (vllm_main env threads url model w).0
      × Printed env
          (LocalCompletions.single_request env)
          threads
          concurrencies
          (local_vllm_main env threads w).0
      × Printed env (ollama_single env) threads concurrencies (ollama_main env threads w).0
unfolding vllm_main local_vllm_main ollama_main run_load_test LocalCompletions.run_load_test
    ollama_load_test
mains-Printed env threads url model w = (
  load_tests-Printed env (λ p. single_request env p (completions_url url) model) threads
      concurrencies w few_at_once,
  load_tests-Printed env (LocalCompletions.single_request env) threads concurrencies w few_at_once,
  load_tests-Printed env (ollama_single env) threads concurrencies w few_at_once,
)
