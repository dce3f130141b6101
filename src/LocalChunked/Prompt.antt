-- ===== src/LocalChunked/Prompt.antt =====
-- `COLD_PROMPT` of kv-inference/scripts/local/load_test_chunked_prefill.py: one text twice.
use ai_infra_demo.Base.{List, [], ◌∷◌, ◌++◌}
use ai_infra_demo.Py.Text.{Text, codes}

-- Lines with a newline between each two.
abbrev lines : List Text → Text
lines [] = []
lines (l ∷ []) = l
lines (l ∷ m ∷ ls) = l ++ 10 ∷ lines (m ∷ ls)

abbrev cold_prompt_half : Text
cold_prompt_half = lines (
    codes "You are an AI infrastructure engineer preparing a detailed technical design document."
    ∷ []
    ∷ codes
        "Please write a comprehensive explanation covering ALL of the following topics in depth:"
    ∷ []
    ∷ codes "1. How transformer attention works mechanically — query, key, value projections,"
    ∷ codes "   scaled dot-product attention, multi-head attention, and why the complexity is"
    ∷ codes "   O(n^2) in sequence length."
    ∷ []
    ∷ codes "2. What the KV cache is, why it exists, how keys and values are stored across"
    ∷ codes "   decode steps, and what happens to memory as sequence length grows."
    ∷ []
    ∷ codes "3. How PagedAttention works — the block table abstraction, how vLLM maps logical"
    ∷ codes "   blocks to physical blocks, and how this enables copy-on-write for beam search."
    ∷ []
    ∷ codes "4. What chunked prefill is, why long prompts cause head-of-line blocking in"
    ∷ codes "   a naive prefill implementation, and how interleaving prefill chunks with"
    ∷ codes "   decode steps fixes P95 TTFT without hurting throughput."
    ∷ []
    ∷ codes "5. How prefix caching works at the block level — which blocks are eligible for"
    ∷ codes "   reuse, how the hash key is computed, and what workloads benefit most."
    ∷ []
    ∷ codes "6. The tradeoff between block size and memory fragmentation — why small blocks"
    ∷ codes "   reduce waste at sequence boundaries but increase block table overhead."
    ∷ []
    ∷ codes "7. How you would design a production Grafana dashboard to monitor all of the"
    ∷ codes "   above — which vLLM Prometheus metrics you would track, what alert thresholds"
    ∷ codes "   make sense, and what a KV cache saturation event looks like in the charts."
    ∷ []
    ∷ codes "Be thorough. Each section should be at least three paragraphs."
    ∷ [])

unfoldable pub cold_prompt : Text
cold_prompt = cold_prompt_half ++ (10 ∷ 10 ∷ (codes "---" ++ (10 ∷ 10 ∷ cold_prompt_half)))
