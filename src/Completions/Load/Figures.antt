-- ===== src/Completions/Load/Figures.antt =====
-- What a run of the load test prints, and when it raises.
use ai_infra_demo.Base.{
  ℕ, suc, ◌+◌, ◌-◌, ◌^◌, ◌<◌, ◌≤◌, ◌≡◌, refl, ◌⊎◌, inl, inr, List, [], ◌∷◌, length, length-map,
  length-take, map, take, arith, ◌==◌, false,
}
use ai_infra_demo.Py.Result.{Error, ok, raised, Result-cases}
use ai_infra_demo.Py.Text.{Text}
use ai_infra_demo.Py.Round.{round_div}
use ai_infra_demo.Effects.{Env, World, Action, perf_counter}
use ai_infra_demo.Completions.Load.{
  load_prompts, repeat, Single, single_request, map_requests, ttfts, mean, sum, LoadReport,
  load_report, load_test, run_load_test,
}
use ai_infra_demo.Stats.{p95, maximum}
use ai_infra_demo.Stats.Percentile.{p95-eq-maximum, maximum_total}
use ai_infra_demo.Stats.Median.{IsMedian, double_median-IsMedian}

-- Requests from number i on: all return and give one result each, or one of them raises.
map_requests_cases :
    (request : Text → Action Single) (threads : ℕ → World) (i : ℕ) (ps : List Text)
    → ((rs : List Single) × (map_requests request threads i ps ≡ ok rs) × (length rs ≡ length ps))
      ⊎ ((e : Error) × (p : Text) × (j : ℕ) × ((request p (threads j)).0 ≡ raised e)
          × (map_requests request threads i ps ≡ raised e))
unfolding map_requests
map_requests_cases request threads i [] = inl ([], refl, refl)
map_requests_cases request threads i (p ∷ ps) = elim (Result-cases (request p (threads i)).0) [
  | inl (r, e) ↦ elim (map_requests_cases request threads (suc i) ps) [
    | inl (rs, f, len) ↦ inl (r ∷ rs, rw (e, f) refl, omega arith)
    | inr (x, q, j, failed, f) ↦ inr (x, q, j, failed, rw (e, f) refl)
  ]
  | inr (x, e) ↦ inr (x, p, i, e, rw e refl)
]

-- The figures of results of which there are some, and no more than 20.
load_report_few :
    (c elapsed : ℕ) (r : Single) (rs : List Single)
    → length (r ∷ rs) ≤ 20
    → (out : LoadReport) × (load_report c elapsed (r ∷ rs) ≡ ok out)
      × IsMedian out.ttft_p50 (ttfts (r ∷ rs))
      × (maximum (ttfts (r ∷ rs)) ≡ ok out.ttft_max)
      × (out.ttft_p95 ≡ out.ttft_max)
unfolding load_report mean
load_report_few c elapsed r rs few =
    let (p50, e, middle) = double_median-IsMedian (ttfts (r ∷ rs)) (λ q. cc) in
    let (m, g) = maximum_total r.ttft_ms (ttfts rs) in
    let f : p95 (ttfts (r ∷ rs)) ≡ maximum (ttfts (r ∷ rs)) =
      p95-eq-maximum (ttfts (r ∷ rs)) (λ q. cc)
        (omega (arith, length-map rs (λ (x : Single). x.ttft_ms))) in
    (
      record {
        concurrency = c;
        ttft_p50 = p50;
        ttft_p95 = m;
        ttft_max = m;
        tps_mean =
            round_div (sum (map (λ (x : Single). x.tps) (r ∷ rs)))
              (length (map (λ (x : Single). x.tps) (r ∷ rs)));
        wall_time = round_div elapsed (10 ^ 8);
      },
      rw (e, f, g) refl,
      middle,
      g,
      refl,
    )

length-repeat_prompts : length (repeat load_prompts 10) ≡ 50
unfolding repeat
length-repeat_prompts = refl

-- The report of as many results as there are prompts.
load_report_prompts :
    (c elapsed : ℕ) (results : List Single)
    → 0 < c
    → c ≤ 20
    → length results ≡ length (take c (repeat load_prompts 10))
    → (out : LoadReport) × (length results ≡ c)
      × (load_report c elapsed results ≡ ok out)
      × IsMedian out.ttft_p50 (ttfts results)
      × (maximum (ttfts results) ≡ ok out.ttft_max)
      × (out.ttft_p95 ≡ out.ttft_max)
load_report_prompts c elapsed [] some_one few len =
    absurd (omega (arith, length-take c (repeat load_prompts 10), length-repeat_prompts))
load_report_prompts c elapsed (r ∷ rs) some_one few len =
    let count : length (r ∷ rs) ≡ c =
      omega (arith, length-take c (repeat load_prompts 10), length-repeat_prompts) in
    let (out, printed, middle, top, same) = load_report_few c elapsed r rs (omega arith) in
    (out, count, printed, middle, top, same)

-- What a run prints, for the results of its requests.
abbrev pub Prints : ℕ → List Single → LoadReport → Type 0
Prints c results out =
    (length results ≡ c)
    × IsMedian out.ttft_p50 (ttfts results)
    × (maximum (ttfts results) ≡ ok out.ttft_max)
    × (out.ttft_p95 ≡ out.ttft_max)

module _ (env : Env) (request : Text → Action Single) (threads : ℕ → World) where
  pub load_test-few :
      (c : ℕ) (w : World)
      → 0 < c
      → c ≤ 20
      → ((results : List Single) × (out : LoadReport) × (map_requests request threads 0
              (take c (repeat load_prompts 10))
            ≡ ok results)
          × ((load_test env request threads c w).0 ≡ ok out)
          × Prints c results out)
        ⊎ ((e : Error) × (p : Text) × (j : ℕ) × ((request p (threads j)).0 ≡ raised e)
            × ((load_test env request threads c w).0 ≡ raised e))
  unfolding load_test perf_counter
  load_test-few c w some_one few =
      elim (map_requests_cases request threads 0 (take c (repeat load_prompts 10))) [
        | inl (results, e, len) ↦
            let start : ℕ = w.now + env.gap w.readings in
            let elapsed : ℕ = start + env.gap (suc w.readings) - start in
            let (out, count, printed, middle, top, same) =
              load_report_prompts c elapsed results some_one few len in
            inl (results, out, e, rw (positive c some_one, e) printed, (count, middle, top, same))
        | inr (x, p, j, failed, e) ↦ inr (x, p, j, failed, rw (positive c some_one, e) refl)
      ]
    where
      positive : (n : ℕ) → 0 < n → (n == 0) ≡ false
      positive n h = ground arith

module _ (env : Env) (threads : ℕ → World) (url model : Text) where
  -- With 1 to 20 requests at once, as in every call of the script: if all return there is one result
  -- per request, the printed p50 is their median and the printed p95 is their maximum; otherwise
  -- one of the requests raised an exception, which the run raises.
  pub run_load_test-few :
      (c : ℕ) (w : World)
      → 0 < c
      → c ≤ 20
      → ((results : List Single) × (out : LoadReport) × (map_requests
              (λ p. single_request env p url model)
              threads
              0
              (take c (repeat load_prompts 10))
            ≡ ok results)
          × ((run_load_test env threads c url model w).0 ≡ ok out)
          × Prints c results out)
        ⊎ ((e : Error) × (p : Text) × (j : ℕ) × ((single_request env p url model (threads j)).0
              ≡ raised e)
            × ((run_load_test env threads c url model w).0 ≡ raised e))
  unfolding run_load_test
  run_load_test-few c w some_one few =
      load_test-few env (λ p. single_request env p url model) threads c w some_one few
