-- ===== src/Samples/Mixing.antt =====
-- A session and an injection that share a list, and the theorems about such runs there.
use mathlib.Core.List.Perm
use ai_infra_demo.Base.{ℕ, ◌+◌, ◌≡◌, ◌≢◌, refl, Option, some, List, [], ◌∷◌}
use ai_infra_demo.Base.Int.{pos}
use ai_infra_demo.Py.Result.{Result, ok}
use ai_infra_demo.Py.Text.{
  Text, codes, decode, strip, starts_with, text_eq, drop_while, drop_last_while, rstrip,
}
use ai_infra_demo.Py.Json.{get, item_0, field_or, or_empty, truthy, join}
use ai_infra_demo.Py.Round.{round_div}
use ai_infra_demo.Py.Slices.{slice_to}
use ai_infra_demo.Effects.{perf_counter, urlopen}
use ai_infra_demo.Sse.{chat_text, sse_loop}
use ai_infra_demo.Inference.{timed_request, total_tokens, ttft_ms, tpot_ms}
use ai_infra_demo.Chat.{chat_inference}
use ai_infra_demo.Chat.Session.{SessionArgs, session_loop}
use ai_infra_demo.MultiSession.Turns.{turns}
use ai_infra_demo.Pool.{start, add_session, new_session, read_done}
use ai_infra_demo.Injections.{Entry, session, chat}
use ai_infra_demo.Injections.Mixed.{Mixed, MixedRun, inject}
use ai_infra_demo.ChunkedPrefill.{run_chat_session}
use ai_infra_demo.ChunkedPrefill.ColdPrompt.{build_cold_prompt}
use ai_infra_demo.ChunkedPrefill.Report.{Report, report}
use ai_infra_demo.ChunkedPrefill.Main.{session_outcome, MainRun}
use ai_infra_demo.ChunkedPrefill.Script.{MixedEnds, mixed_continuous}
use ai_infra_demo.ChunkedPrefill.Script as MixedScript
use ai_infra_demo.ChunkedPrefill.Script.Reported.{Outcomes, mixed_Ends-Reported}
use ai_infra_demo.Injections.Options.{InjectorArgs, mixed_launch}
use ai_infra_demo.Chat.Options.{chat_url, launch, until_interrupt}
use ai_infra_demo.Py.Ints.{read_int, read_signed, read_digits}
use ai_infra_demo.Py.Argparse.{
  parse_args, kind_of, dash_kind, exact, split_eq, option_tuples, abbreviated, split_args,
  take_actions,
}
use ai_infra_demo.Samples.Scripts.{no_floats, two_turns_args}
use ai_infra_demo.Samples.Server.{sample_env, sample_world, never}

abbrev one_turn : SessionArgs
one_turn = record two_turns_args { max_turns = pos 1 }

abbrev mixed_argv : List Text
mixed_argv =
    codes "--turns"
    ∷ codes "1"
    ∷ codes "--concurrency=1"
    ∷ codes "--model=m"
    ∷ codes "--mode"
    ∷ codes "mixed"
    ∷ codes "--continuous"
    ∷ []

abbrev one_injector : InjectorArgs
one_injector = record { url = one_turn.url; model = one_turn.model; interval_s = pos 30000000000 }

mixed_argv_launches :
    mixed_launch no_floats mixed_argv
    ≡ some (record { injector = some one_injector; sessions = until_interrupt 1 one_turn })
unfolding mixed_launch launch chat_url rstrip parse_args kind_of dash_kind exact split_eq
    option_tuples abbreviated split_args take_actions read_int read_signed read_digits strip
    drop_while drop_last_while text_eq starts_with
mixed_argv_launches = refl

abbrev outcome : ℕ → Result (List Entry)
outcome = session_outcome (λ n. sample_env) (λ n. never) (λ n. sample_world) one_turn

abbrev first_entry : Entry
first_entry = record {
  session = session 1;
  type = chat;
  turn = 1;
  prompt_messages = 2;
  ttft_ms = 20;
  tpot_ms = 70;
  total_tokens = 2;
}

first_outcome : outcome 1 ≡ ok (first_entry ∷ [])
unfolding session_outcome run_chat_session session_loop chat_inference timed_request sse_loop
    chat_text perf_counter urlopen decode strip starts_with text_eq get item_0 field_or or_empty
    truthy join round_div slice_to turns total_tokens ttft_ms tpot_ms
first_outcome = refl

abbrev first_read : Mixed
first_read = record {
  pool = record { session_counter = 2; active = 2 ∷ []; done = []; all_results = first_entry ∷ [] };
  inject_id = 0;
  injector = sample_world;
}

-- The first session has been read, and then the injector has appended an entry.
abbrev injected_once : Mixed
injected_once =
    inject sample_env 600 (λ n. build_cold_prompt (λ k. n + k)) one_turn.url one_turn.model
      first_read

abbrev SampleRun : Mixed → List ℕ → Type 0
SampleRun =
    MainRun (λ n. sample_env) (λ n. never) (λ n. sample_world) one_turn sample_env (λ n k. n + k) 1
      sample_world

read_first :
    (outcome : ℕ → Result (List Entry))
    → outcome 1 ≡ ok (first_entry ∷ [])
    → read_done outcome 1 []
        (record { session_counter = 1; active = []; done = 1 ∷ []; all_results = [] })
      ≡ ok first_read.pool
unfolding read_done add_session new_session
read_first outcome e = rw e refl

one_done : ◌≢◌ {A = List ℕ} (1 ∷ []) []
one_done p = cc

first_read-SampleRun : SampleRun first_read (1 ∷ [])
unfolding start add_session new_session
first_read-SampleRun =
    MixedRun.read 1
      (MixedRun.waited (1 ∷ []) [] MixedRun.started refl one_done (Perm.refl (1 ∷ []))) refl
      (read_first outcome first_outcome)

abbrev printed : Result (Option Report)
printed = report injected_once.pool.all_results

printed-MixedEnds :
    MixedEnds no_floats
      (λ n. sample_env)
      (λ n. never)
      (λ n. sample_world)
      sample_env
      (λ n k. n + k)
      sample_world
      mixed_argv
      (1 ∷ [])
      (2 ∷ [])
      1
      printed
unfolding inject
printed-MixedEnds =
    MixedScript.printed one_turn _ mixed_argv_launches
      (mixed_continuous (MixedRun.injected first_read-SampleRun))

mixed_Ends-Reported_example :
    Outcomes sample_env 600
      (λ n. build_cold_prompt (λ k. n + k))
      sample_world
      (session_outcome (λ n. sample_env) (λ n. never) (λ n. sample_world))
      (mixed_launch no_floats mixed_argv)
      (1 ∷ [])
      (2 ∷ [])
      1
      printed
mixed_Ends-Reported_example =
    mixed_Ends-Reported no_floats (λ n. sample_env) (λ n. never) (λ n. sample_world) sample_env
      (λ n k. n + k) sample_world mixed_argv (1 ∷ []) (2 ∷ []) 1 printed printed-MixedEnds
