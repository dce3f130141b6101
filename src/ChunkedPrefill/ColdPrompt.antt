-- ===== src/ChunkedPrefill/ColdPrompt.antt =====
-- `build_cold_prompt` of nebius-3-kv-expr/load_test_chunked_prefill.py. `draws` are the random
-- numbers that `random.sample` takes: each picks one of the topics that are left.
pub mod Laws
use ai_infra_demo.Base.{ℕ, zero, suc, ◌+◌, ◌%◌, Option, none, some, List, [], ◌∷◌, ◌++◌, length}
use ai_infra_demo.Py.Text.{Text, codes}
use ai_infra_demo.Py.Decimal.{decimal}

unfoldable pub cold_prompt_preamble : Text
cold_prompt_preamble =
    codes "You are an AI infrastructure engineer preparing a detailed technical design document."
    ++ 10
      ∷ 10
      ∷ codes
          "Please write a comprehensive explanation covering ALL of the following topics in depth:"

unfoldable pub cold_prompt_topics : List Text
cold_prompt_topics =
    codes
      "How transformer attention works mechanically — query, key, value projections, scaled dot-product attention, multi-head attention, and why the complexity is O(n^2) in sequence length."
    ∷ codes
        "What the KV cache is, why it exists, how keys and values are stored across decode steps, and what happens to memory as sequence length grows."
    ∷ codes
        "How PagedAttention works — the block table abstraction, how vLLM maps logical blocks to physical blocks, and how this enables copy-on-write for beam search."
    ∷ codes
        "What chunked prefill is, why long prompts cause head-of-line blocking in a naive prefill implementation, and how interleaving prefill chunks with decode steps fixes P95 TTFT without hurting throughput."
    ∷ codes
        "How prefix caching works at the block level — which blocks are eligible for reuse, how the hash key is computed, and what workloads benefit most."
    ∷ codes
        "The tradeoff between block size and memory fragmentation — why small blocks reduce waste at sequence boundaries but increase block table overhead."
    ∷ codes
        "How you would design a production Grafana dashboard to monitor all of the above — which vLLM Prometheus metrics you would track, what alert thresholds make sense, and what a KV cache saturation event looks like in the charts."
    ∷ codes
        "How continuous batching works in vLLM — how requests are admitted mid-batch, why it improves GPU utilization over static batching, and what the scheduling policy looks like."
    ∷ codes
        "What tensor parallelism is, how it splits attention heads and weight matrices across multiple GPUs, and what the communication overhead looks like at inference time."
    ∷ codes
        "How speculative decoding works in LLM inference — the draft model, verification step, acceptance rate, and when it helps vs hurts throughput."
    ∷ codes
        "What CUDA graphs are, why vLLM uses them to reduce kernel launch overhead, and what the tradeoff is between graph capture time and per-request latency."
    ∷ codes
        "How weight quantization affects inference — the difference between PTQ and QAT, how GPTQ calibrates per-layer scale factors, and what quality degradation to expect at INT4 vs FP8."
    ∷ codes
        "How KV cache quantization differs from weight quantization — why INT8 KV cache is safe for most workloads, and how it interacts with PagedAttention block management."
    ∷ codes
        "How you would capacity plan an inference cluster — given a target QPS, SLA on TTFT and TPOT, model size, and GPU type, walk through the calculation to determine node count and KV cache budget."
    ∷ []

module _ {ℓ} {A : Type ℓ} where
  -- The element at an index, and the others in their order.
  unfoldable pub pick : ℕ → List A → Option (A × List A)
  pick i [] = none
  pick zero (x ∷ xs) = some (x, xs)
  pick (suc i) (x ∷ xs) = elim (pick i xs) [ none ↦ none | some (y, ys) ↦ some (y, x ∷ ys) ]

  -- `random.sample(pool, n)`: n draws without replacement.
  unfoldable pub sample : (ℕ → ℕ) → ℕ → List A → List A
  unfolding pick
  sample draws zero pool = []
  sample draws (suc n) pool = elim (pick (draws n % length pool) pool) [
    | none ↦ []
    | some (x, rest) ↦ x ∷ sample draws n rest
  ]

-- `"\n\n".join(f"{i+1}. {t}" for i, t in enumerate(topics))`, from index i on.
unfoldable pub numbered : ℕ → List Text → Text
numbered i [] = []
numbered i (t ∷ []) = decimal (i + 1) ++ codes ". " ++ t
numbered i (t ∷ u ∷ ts) =
    (decimal (i + 1) ++ codes ". " ++ t) ++ 10 ∷ 10 ∷ numbered (suc i) (u ∷ ts)

abbrev pub cold_prompt_close : Text
cold_prompt_close = 10 ∷ 10 ∷ codes "Be thorough. Each section should be at least three paragraphs."

unfoldable pub build_cold_prompt : (ℕ → ℕ) → Text
unfolding sample numbered
build_cold_prompt draws =
    let shuffled = sample draws (length cold_prompt_topics) cold_prompt_topics in
    cold_prompt_preamble ++ (10 ∷ 10 ∷ (numbered 0 shuffled ++ cold_prompt_close))
