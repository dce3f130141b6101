-- ===== src/Completions/Main.antt =====
-- `__main__` of the scripts that measure one request: measure_inference_vllm.py of
-- kv-inference/scripts/nebius-2-vllm-w-observ, its local copy, and
-- kv-inference/scripts/local/measure_inference_ollama.py.
pub mod Requests
use mathlib.Core.Option
use ai_infra_demo.Base.{Option, some, none, List, [], ◌∷◌, ◌++◌, take}
use ai_infra_demo.Py.Result.{Result}
use ai_infra_demo.Py.Text.{Text, codes}
use ai_infra_demo.Py.Argparse.{Argument, store_one, parse_args, help}
use ai_infra_demo.Effects.{Env, World}
use ai_infra_demo.Completions.{Measurement, run_inference}
use ai_infra_demo.LocalCompletions
use ai_infra_demo.LocalCompletions.{local_model}
use ai_infra_demo.LoadTests.{completions_url}
use ai_infra_demo.Ollama.{OllamaMeasurement, ollama_inference}

abbrev pub measured_prompt : Text
measured_prompt = codes "Explain what a KV cache is in a large language model inference system."

abbrev pub ollama_model : Text
ollama_model = codes "qwen2.5:0.5b"

-- What is printed: the header, and the figures of the result or the exception that ends the script.
-- Only the script with a command line prints its URL.
pub record Measured (M : Type 0) : Type 0 where
  pub model : Text
  pub url : Option Text
  pub prompt_preview : Text
  pub result : Result M

abbrev pub print_measured :
    {M : Type 0} → Text → Option Text → Result M × World → Measured M × World
print_measured model url (r, w) =
    (record { model = model; url = url; prompt_preview = take 60 measured_prompt; result = r }, w)

pub record MeasureOptions : Type 0 where
  pub url : Text
  pub model : Text

abbrev pub default_measure : MeasureOptions
default_measure = record {
  url = codes "http://localhost:8000";
  model = codes "mlx-community/Qwen2.5-0.5B-Instruct-4bit";
}

abbrev pub measure_arguments : List (Argument MeasureOptions)
measure_arguments =
    help
    ++ record { flag = codes "--url"; store = store_one (λ t n. some (record n { url = t })) }
      ∷ record { flag = codes "--model"; store = store_one (λ t n. some (record n { model = t })) }
      ∷ []

module _ (env : Env) where
  unfoldable pub measure_with : MeasureOptions → World → Measured Measurement × World
  unfolding completions_url run_inference
  measure_with o w =
      let url = completions_url o.url in
      print_measured o.model (some url) (run_inference env measured_prompt url o.model w)

  -- `none` is SystemExit.
  unfoldable pub measure_main : List Text → World → Option (Measured Measurement × World)
  unfolding measure_with parse_args
  measure_main argv w =
      Option.map (λ o. measure_with o w) (parse_args measure_arguments default_measure argv)

  unfoldable pub local_measure_main : World → Measured Measurement × World
  unfolding LocalCompletions.run_inference
  local_measure_main w =
      print_measured local_model none (LocalCompletions.run_inference env measured_prompt w)

  unfoldable pub ollama_measure_main : World → Measured OllamaMeasurement × World
  unfolding ollama_inference
  ollama_measure_main w = print_measured ollama_model none (ollama_inference env measured_prompt w)
