-- ===== src/Completions/Load.antt =====
-- kv-inference/scripts/nebius-2-vllm-w-observ/load_test_vllm.py: a request that counts its tokens, and
-- the report over several at once.
pub mod Counts
pub mod Figures
use ai_infra_demo.Base.{
  ℕ, zero, suc, ◌+◌, ◌-◌, ◌*◌, ◌^◌, Option, none, some, List, [], ◌∷◌, ◌++◌, length, map, take,
  ◌==◌, if◌then◌else◌,
}
use ai_infra_demo.Py.Result.{
  Result, ok, raised, ◌>>=◌ as bind_ok, zero_division_error, value_error, statistics_error,
}
use ai_infra_demo.Py.Round.{round_div}
use ai_infra_demo.Py.Text.{Text, codes}
use ai_infra_demo.Py.Json.{Json}
use ai_infra_demo.Effects.{
  Request, Event, Env, World, Action, pure, lift, ◌>>=◌, ◌>>◌, perf_counter, urlopen,
}
use ai_infra_demo.Sse.{Reader, sse_loop, completion_text}
use ai_infra_demo.Inference.{or_first, or_time, or_now}
use ai_infra_demo.Completions.{completion_request}
use ai_infra_demo.Stats.{double_median, p95, maximum}

-- The variables of the loop.
pub record Counter : Type 0 where
  pub t_first : Option ℕ
  pub token_count : ℕ
  pub t_done : Option ℕ

abbrev pub no_count : Counter
no_count = record { t_first = none; token_count = 0; t_done = none }

abbrev pub count_token : ℕ → Json → Counter → Counter
count_token now token_text s = record s {
  t_first = or_first s.t_first now;
  token_count = s.token_count + 1;
}

abbrev pub count_end : ℕ → Counter → Counter
count_end now s = record s { t_done = some now }

abbrev pub count_reader : Reader Counter
count_reader = record { extract = completion_text; token = count_token; finish = count_end }

-- `total_s` is in hundredths of a second.
pub record Single : Type 0 where
  pub ttft_ms : ℕ
  pub total_s : ℕ
  pub tokens : ℕ
  pub tps : ℕ

-- The returned dict.
unfoldable pub single : ℕ → ℕ → ℕ → ℕ → Result Single
single t0 t_first t_done token_count =
    if t_done - t0 == 0
    then raised zero_division_error
    else ok (record {
      ttft_ms = round_div (t_first - t0) 100000;
      total_s = round_div (t_done - t0) (10 ^ 7);
      tokens = token_count;
      tps = round_div (token_count * 10 ^ 10) (t_done - t0);
    })

unfoldable pub finish_count : Env → ℕ → Counter → Action Single
unfolding single
finish_count env t0 s = do
  t_done ← or_now env s.t_done
  lift (single t0 (or_time s.t_first t_done) t_done s.token_count)

-- From the first line of the response on.
unfoldable pub receive_count : Env → ℕ → List Event → Action Single
unfolding finish_count
receive_count env t0 resp = do s ← sse_loop env count_reader resp no_count; finish_count env t0 s

unfoldable pub single_request : Env → Text → Text → Text → Action Single
unfolding receive_count
single_request env prompt url model = do
  t0 ← perf_counter env
  resp ← urlopen env (completion_request prompt url model)
  receive_count env t0 resp

abbrev pub load_prompts : List Text
load_prompts =
    codes "What is attention in a transformer model?"
    ∷ codes "Explain CUDA cores vs tensor cores."
    ∷ codes "What does a GPU memory controller do?"
    ∷ codes "Describe the role of the KV cache in inference."
    ∷ codes "What is speculative decoding?"
    ∷ []

-- `xs * n`
unfoldable pub repeat {ℓ} : {A : Type ℓ} → List A → ℕ → List A
repeat xs zero = []
repeat xs (suc n) = xs ++ repeat xs n

-- `list(pool.map(request, prompts))`, from request i on: the first exception in the order of the
-- prompts is raised. Each thread has a world of its own.
unfoldable pub map_requests :
    (Text → Action Single) → (ℕ → World) → ℕ → List Text → Result (List Single)
map_requests request threads i [] = ok []
map_requests request threads i (p ∷ ps) =
    bind_ok (request p (threads i)).0
      λ r. bind_ok (map_requests request threads (suc i) ps) λ rs. ok (r ∷ rs)

abbrev pub ttfts : List Single → List ℕ
ttfts results = map (λ (r : Single). r.ttft_ms) results

unfoldable pub sum : List ℕ → ℕ
sum [] = 0
sum (x ∷ xs) = x + sum xs

-- `statistics.mean`, to the digit that is printed
unfoldable pub mean : List ℕ → Result ℕ
unfolding sum
mean [] = raised statistics_error
mean (x ∷ xs) = ok (round_div (sum (x ∷ xs)) (length (x ∷ xs)))

-- The printed figures; the wall time is in tenths of a second.
pub record LoadReport : Type 0 where
  pub concurrency : ℕ
  pub ttft_p50 : ℕ
  pub ttft_p95 : ℕ
  pub ttft_max : ℕ
  pub tps_mean : ℕ
  pub wall_time : ℕ

unfoldable pub load_report : ℕ → ℕ → List Single → Result LoadReport
load_report concurrency elapsed results = bind_ok (double_median (ttfts results)) λ ttft_p50.
    bind_ok (p95 (ttfts results)) λ ttft_p95. bind_ok (maximum (ttfts results)) λ ttft_max.
      bind_ok (mean (map (λ (r : Single). r.tps) results)) λ tps_mean. ok (record {
        concurrency = concurrency;
        ttft_p50 = ttft_p50;
        ttft_p95 = ttft_p95;
        ttft_max = ttft_max;
        tps_mean = tps_mean;
        wall_time = round_div elapsed (10 ^ 8);
      })

-- `run_load_test` around its `single_request`. A pool without workers raises ValueError.
unfoldable pub load_test : Env → (Text → Action Single) → (ℕ → World) → ℕ → Action LoadReport
unfolding repeat map_requests load_report mean
load_test env request threads concurrency = do
  t_start ← perf_counter env
  lift (if concurrency == 0 then raised value_error else ok tt)
  results ← lift (map_requests request threads 0 (take concurrency (repeat load_prompts 10)))
  t_end ← perf_counter env
  lift (load_report concurrency (t_end - t_start) results)

unfoldable pub run_load_test : Env → (ℕ → World) → ℕ → Text → Text → Action LoadReport
unfolding load_test
run_load_test env threads concurrency url model =
    load_test env (λ p. single_request env p url model) threads concurrency
