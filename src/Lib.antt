-- ===== src/Lib.antt =====
-- The measurement and load-test scripts of the repository (Python): streamed inference requests
-- against a vLLM server, chat sessions over them, and the statistics printed at the end. Beside them
-- the Kubernetes operator (Go) that scales a workload by its KV-cache usage, and the metrics stub
-- (Python) that it is tried with.
--
-- Parts and files. Paths are those of the repository.
-- - Py: what the scripts use of Python, one file per concern: exceptions as a result type (Result),
--   text as a list of code points with `strip`, `startswith` and UTF-8 decoding (Text), values of
--   `json.loads` with `get`, `[0]`, `or` and `"".join` (Json), `round` (Round), `xs[:n]` (Slices),
--   `str(n)` (Decimal), `int(t)` (Ints), and `argparse` with its abbreviations, `=` and negative
--   numbers (Argparse).
-- - Effects: one thread's outside world. The clock of `time.perf_counter()`, the server behind
--   `urllib.request.urlopen` and `json.loads` are functions in `Env`; the time, the readings, the
--   requests sent and the pauses made are in `World`. An `Action` passes the world on and ends with
--   a value or an exception.
-- - Sse: the loop `for raw_line in resp` of `run_inference`, shared by the scripts under
--   kv-inference/scripts, with a `Reader` for what a script keeps of a token and of the end.
-- - Inference: `run_inference` from the first reading of the clock to the printed figures.
-- - Chat: the messages, the request and the session loop of the chat scripts, their command line and
--   what `__main__` launches for it (Chat/Options), and their requests as a server of the API reads
--   them (Chat/Payload).
-- - MultiSession: kv-inference/scripts/nebius-3-kv-expr/load_test_multi_session.py: `run_inference`,
--   `run_chat_session`, TURNS, the report of `__main__` (MultiSession/Report) and its lines as texts
--   (MultiSession/Report/Table), its sessions without
--   `--continuous` (MultiSession/Main), and the whole of it from the command line to every way in
--   which it can end (MultiSession/Script).
-- - ChunkedPrefill: kv-inference/scripts/nebius-3-kv-expr/load_test_chunked_prefill.py:
--   `build_cold_prompt`, `run_chat_session`, `run_injector`, the report, `__main__` with
--   `--mode mixed --continuous` (ChunkedPrefill/Main), and the whole of it in both modes from the
--   command line to every way in which it can end (ChunkedPrefill/Script).
-- - Stats: `sorted`, `statistics.median`, `sorted(xs)[int(len(xs) * 0.95)]` and `max`.
-- - MeasureChat: kv-inference/scripts/nebius-3-kv-expr/measure_chat_session.py, with `__main__` in
--   MeasureChat/Main.
-- - Pool: the pool of sessions of load_test_multi_session.py and load_test_chunked_prefill.py, as a
--   step relation (Pool/Runs) and as the loop over `as_completed` (Pool/Completed).
-- - Completions: kv-inference/scripts/nebius-2-vllm-w-observ/measure_inference_vllm.py, and
--   load_test_vllm.py of the same directory in Completions/Load. `__main__` of the three scripts that
--   measure one request is in Completions/Main.
-- - Ollama: kv-inference/scripts/local/measure_inference_ollama.py, and `single_request` of
--   load_test_ollama.py of the same directory.
-- - LocalCompletions: measure_inference_vllm.py and load_test_vllm.py of kv-inference/scripts/local.
-- - LoadTests: `__main__` of the two load_test_vllm.py and of load_test_ollama.py; `--continuous` and
--   the command line of the former are in LoadTests/Rounds.
-- - Ramp: kv-inference/scripts/nebius-3-kv-expr/ramp_load_test.py: the stages (Ramp/Schedule), the
--   command line and `__main__` (Ramp/Options, Ramp/Plan), and what a child reads (Ramp/Children).
-- - Injections: the injector thread of the two load_test_chunked_prefill.py, and its rounds between
--   those of the pool (Injections/Mixed), where both append to `all_results`. The
--   command line of these scripts is in Injections/Options.
-- - LocalChunked: kv-inference/scripts/local/load_test_chunked_prefill.py, the older version of the
--   chunked-prefill load test, with its one prompt (LocalChunked/Prompt), its `__main__`, and the whole
--   of it around the loops of the newer one (LocalChunked/Script).
-- - Operator: go-operator/internal/controller, in Go. Types is api/v1alpha1/workloadlifecycle_types.go,
--   Int32 and Strings are what the code uses of Go, Scaling is `computeDesiredReplicas`, Status is the
--   cluster and `recordStatus`, Reconcile is `Reconcile`, and Metrics is metrics_provider.go.
-- - MetricsStub: go-operator/local-test/metrics-stub/app.py, `state` and the routes `/metrics` and
--   `/set`.
-- - Samples: a small server and clock, and the theorems applied there.
--
-- How they interact. A session calls `run_inference` once per question, with the list of messages
-- that it extends before and after; `run_inference` runs the loop over the response. The load tests
-- gather the rows of sessions and injections in one list, which the report sorts and measures. The
-- operator reads the text that the metrics stub writes. A ramp writes command lines that
-- load_test_multi_session.py reads.
--
-- Representation. Times are whole nanoseconds, so a figure that Python computes in doubles is the
-- exact quotient, rounded half to even as `round` does to the digit it keeps. A median is held
-- doubled. `int(n * 0.95)` is the whole part of 95 n / 100. Loops are structural recursion on the
-- list of lines, of questions or of what the stop event answers, so no fuel is needed: an endless
-- response or an endless injector is any of its finite beginnings. `while True` of
-- load_test_vllm.py is looked at after any number n of its rounds. A command line is read as a
-- whole: SystemExit, after a usage error or the help, is one value.
--
-- Given as parameters, since their code is not in the repository: the clock as the time that passes
-- before each reading (the clock is monotonic), the server as a function of the request's number
-- and content, `json.loads` as a function that can fail, the random draws, and the answers of
-- `stop_event.is_set()`, which other threads set, `float(t)` and `str` of a float (where a theorem
-- needs that `float` reads back what `str` printed, it says so), and when a child process ends. Of
-- the operator and the stub: what the API server and the HTTP client answer,
-- `meta.SetStatusCondition`, Flask's reading of a request, and float64 with its parsing and
-- printing. An int32 is its 32 bits, with the wrap-around written out.
--
-- Not modelled: what is printed on the way, the formatting of the other tables, the rounding error
-- of doubles, the texts of usage errors, digits outside ASCII in arguments, a Ctrl-C that is met
-- elsewhere than between two rounds of a loop, and what an injector appends to the list while the
-- report reads it. Neither are the set-up and logging of the operator, and the infrastructure
-- files.
pub mod Base
pub mod Py
pub mod Effects
pub mod Sse
pub mod Inference
pub mod Chat
pub mod MultiSession
pub mod Injections
pub mod ChunkedPrefill
pub mod Pool
pub mod Completions
pub mod Ollama
pub mod MeasureChat
pub mod Ramp
pub mod Operator
pub mod MetricsStub
pub mod LocalCompletions
pub mod LoadTests
pub mod LocalChunked
pub mod Stats
mod Samples
