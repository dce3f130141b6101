-- ===== src/MultiSession/Turns.antt =====
-- The questions of the chat load tests: `TURNS` of load_test_multi_session.py.
use ai_infra_demo.Base.{List, [], ◌∷◌}
use ai_infra_demo.Py.Text.{Text, codes}

unfoldable pub turns : List Text
turns =
    codes "Explain what a KV cache is in a large language model inference system."
    ∷ codes "How does the size of the KV cache affect how many concurrent users you can serve?"
    ∷ codes "What is prefix caching and how does it help with multi-turn conversations?"
    ∷ codes "What happens when the KV cache is full?"
    ∷ codes "How would you monitor KV cache utilization in production?"
    ∷ codes
        "What is the difference between TTFT and TPOT, and why does each matter for user experience?"
    ∷ codes "How does tensor parallelism affect KV cache size across multiple GPUs?"
    ∷ codes "What tradeoffs exist between batch size and KV cache memory usage?"
    ∷ codes "How does chunked prefill help with long-context requests?"
    ∷ codes "What is preemption in vLLM and when does it occur?"
    ∷ codes "How would you design a KV cache eviction policy for a production system?"
    ∷ codes "What is the relationship between model precision and KV cache memory footprint?"
    ∷ codes "How does continuous batching differ from static batching in terms of memory usage?"
    ∷ codes "What metrics would you alert on to detect KV cache pressure before it impacts users?"
    ∷ codes "How would paged attention help with memory fragmentation in a KV cache?"
    ∷ []
