-- ===== src/Completions/Main/Requests.antt =====
-- What the measurement scripts send, and that the local copies do what the other scripts do without
-- options for the server.
use mathlib.Core.Option
use ai_infra_demo.Base.{ℕ, ◌≡◌, refl, ap, some, List, [], ◌∷◌}
use ai_infra_demo.Py.Result.{Result, ok, raised}
use ai_infra_demo.Py.Text.{Text, codes, rstrip, drop_last_while, drop_while, text_eq}
use ai_infra_demo.Py.Json.{join}
use ai_infra_demo.Py.Argparse.{exact, dash_kind, kind_of, split_args, take_actions, parse_args}
use ai_infra_demo.Effects.{Request, Env, World, and_then}
use ai_infra_demo.Sse.{completion_text}
use ai_infra_demo.Sse.Quiet.{IsQuiet, IsQuiet-refl, and_then-IsQuiet}
use ai_infra_demo.Inference.{Timed, timed_request, throughput_tps}
use ai_infra_demo.Inference.Sent.{Sent, Sent-quiet, timed_request-Sent}
use ai_infra_demo.Completions.{Measurement, completion_request, measure, run_inference}
use ai_infra_demo.Completions.Load.{run_load_test}
use ai_infra_demo.Completions.Main.{
  measured_prompt, Measured, MeasureOptions, default_measure, measure_arguments, measure_with,
  measure_main, local_measure_main,
}
use ai_infra_demo.LocalCompletions
use ai_infra_demo.LoadTests.{completions_url}
use ai_infra_demo.LoadTests.Rounds.{vllm_script, local_vllm_script}

measure-IsQuiet : (t : Timed) (w : World) → IsQuiet w (measure t w).1
unfolding measure
measure-IsQuiet t w =
    and_then-IsQuiet w (throughput_tps t, w) _ (IsQuiet-refl w)
      λ tps u. and_then-IsQuiet u (join t.full_response, u) _ (IsQuiet-refl u) λ r v. IsQuiet-refl v

run_inference-Sent :
    (env : Env) (prompt url model : Text) (w : World)
    → Sent (completion_request prompt url model) w (run_inference env prompt url model w).1
unfolding run_inference
run_inference-Sent env prompt url model w =
    let req = completion_request prompt url model in
    figures_sent req (timed_request env completion_text req w)
      (timed_request-Sent env completion_text req w)
  where
    figures_sent :
        (req : Request) (m : Result Timed × World)
        → Sent req w m.1
        → Sent req w (and_then m measure).1
    figures_sent req (ok t, u) s = Sent-quiet req w u _ s (measure-IsQuiet t u)
    figures_sent req (raised e, u) s = s

-- Of every command line that measure_inference_vllm.py accepts: it sends one request, to the completions
-- path of the URL, with its one prompt and the model, and names both in what it prints.
pub measure_main-Sent :
    (env : Env) (argv : List Text) (w : World) (o : MeasureOptions)
    → parse_args measure_arguments default_measure argv ≡ some o
    → (out : Measured Measurement × World) × (measure_main env argv w ≡ some out)
      × (out.0.model ≡ o.model)
      × (out.0.url ≡ some (completions_url o.url))
      × Sent (completion_request measured_prompt (completions_url o.url) o.model) w out.1
unfolding measure_main measure_with
measure_main-Sent env argv w o e = (
  _,
  ap (Option.map _) e,
  refl,
  refl,
  run_inference-Sent env measured_prompt (completions_url o.url) o.model w,
)

abbrev pub result_and_world : Measured Measurement × World → Result Measurement × World
result_and_world (m, w) = (m.result, w)

-- Without options, measure_inference_vllm.py and its local copy give the same result and leave the same
-- world; load_test_vllm.py and its local copy do so with no options and with `--continuous`.
pub copies-agree :
    (env : Env) (threads : ℕ → ℕ → ℕ → World) (n : ℕ) (w : World)
    → (Option.map result_and_world (measure_main env [] w)
        ≡ some (result_and_world (local_measure_main env w)))
      × (vllm_script env threads n [] w ≡ local_vllm_script env threads n [] w)
      × (vllm_script env threads n (codes "--continuous" ∷ []) w
          ≡ local_vllm_script env threads n (codes "--continuous" ∷ []) w)
unfolding measure_main local_measure_main vllm_script local_vllm_script kind_of dash_kind exact
    text_eq split_args take_actions LocalCompletions.run_inference run_load_test
    LocalCompletions.run_load_test LocalCompletions.single_request completions_url drop_last_while
    drop_while rstrip
copies-agree env threads n w = (refl, refl, refl)
