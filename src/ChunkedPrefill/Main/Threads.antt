-- ===== src/ChunkedPrefill/Main/Threads.antt =====
-- A mixed run of the newer load test, and its report.
use mathlib.Core.Path.{subst}
use ai_infra_demo.Base.{ℕ, suc, ◌+◌, ◌≡◌, ◌≢◌, sym, ap, ◌∙◌, Bool, some, List, [], ◌∷◌}
use ai_infra_demo.Py.Result.{Result, ok, raised}
use ai_infra_demo.Py.Text.{Text}
use ai_infra_demo.Py.Slices.{slice_to}
use ai_infra_demo.Effects.{Env, World}
use ai_infra_demo.Chat.{system_message}
use ai_infra_demo.Chat.Session.{SessionArgs, session_loop}
use ai_infra_demo.Chat.Session.Rows.{IsMade, Reports, session_loop-Reports}
use ai_infra_demo.Pool.Runs.{IsKept, rows_of}
use ai_infra_demo.Injections.{Entry, chat_entry, is_chat, is_inject}
use ai_infra_demo.Injections.Mixed.{Mixed, MixedRun}
use ai_infra_demo.Injections.Mixed.Entries.{only, AllChat}
use ai_infra_demo.Injections.Mixed.Sessions.{sessions_of}
use ai_infra_demo.Injections.Mixed.Threads.{IsInjecting, MixedRun-threads}
use ai_infra_demo.ChunkedPrefill.{turns, run_chat_session}
use ai_infra_demo.ChunkedPrefill.ColdPrompt.{build_cold_prompt}
use ai_infra_demo.ChunkedPrefill.Report.{Report, report, chat_ttfts, inject_ttfts}
use ai_infra_demo.ChunkedPrefill.Report.Entries.{ttfts_if-only, only-ne-nil}
use ai_infra_demo.ChunkedPrefill.Report.Laws.{Describes, DescribesAny, chat_report_total}
use ai_infra_demo.ChunkedPrefill.Main.{session_outcome, MainRun, print_results}

IsMade-AllChat :
    (session i m : ℕ) (rows : List Entry) → IsMade (chat_entry session) i m rows → AllChat rows
IsMade-AllChat session i m [] made = tt
IsMade-AllChat session i m (r ∷ rs) ((result, messages, _, e), made) =
    (ap (λ (x : Entry). x.type) e, IsMade-AllChat session (suc i) (m + 2) rs made)

Reports-AllChat :
    (is_set : ℕ → Bool) (session n : ℕ) (w : World) (own : List Entry)
    (out : Result (List Entry) × World)
    → Reports is_set (chat_entry session) 0 1 n [] w out
    → out.0 ≡ ok own
    → AllChat own
Reports-AllChat is_set session n w own (ok rows, u) (new, e, made, _, _) same =
    subst AllChat (sym e ∙ ok-injective rows own same) (IsMade-AllChat session 0 1 new made)
  where
    ok-injective : (xs ys : List Entry) → ok xs ≡ ok ys → xs ≡ ys
    ok-injective xs ys p = cc
Reports-AllChat is_set session n w own (raised x, u) bounds same = cc

-- The rows of a session are entries of chat turns.
pub session_loop-AllChat :
    (env : Env) (is_set : ℕ → Bool) (max_tokens : ℕ) (args : SessionArgs) (session : ℕ)
    (questions : List Text) (w : World) (rows : List Entry)
    → (session_loop env is_set max_tokens args
        (chat_entry session)
        0
        questions
        (system_message ∷ [])
        []
        w).0
      ≡ ok rows
    → AllChat rows
session_loop-AllChat env is_set max_tokens args session questions w rows e =
    Reports-AllChat is_set session _ w rows _
      (session_loop-Reports env is_set max_tokens args (chat_entry session) 0 questions
        (system_message ∷ []) [] w)
      e

module _ (env : Env) (max_tokens : ℕ) (prompt : ℕ → Text) (url model : Text)
    (outcome : ℕ → Result (List Entry)) (c : ℕ) (w : World)
    (chats : (n : ℕ) (rows : List Entry) → outcome n ≡ ok rows → AllChat rows) where
  -- A report of what both threads left.
  pub MixedRun-report :
      {m : Mixed} {finished : List ℕ}
      → MixedRun env max_tokens prompt url model outcome c w m finished
      → rows_of outcome finished ≢ []
      → IsKept outcome c (sessions_of m.pool) finished
        × IsInjecting env max_tokens prompt url model outcome c w m
        × ((r : Report) × (report m.pool.all_results ≡ ok (some r))
            × Describes r.chat (chat_ttfts (rows_of outcome finished))
            × DescribesAny r.inject (inject_ttfts (only is_inject m.pool.all_results)))
  MixedRun-report {m} {finished} run some_row =
      let all = m.pool.all_results in
      let (kept, injecting) =
        MixedRun-threads env max_tokens prompt url model outcome c w chats run in
      let figures : chat_ttfts all ≡ chat_ttfts (rows_of outcome finished) =
        ttfts_if-only is_chat all ∙ ap chat_ttfts kept.results in
      let (r, printed, _, d, i) =
        chat_report_total all
          (only-ne-nil is_chat all (λ none. some_row (sym kept.results ∙ none))) in
      (
        kept,
        injecting,
        (
          r,
          printed,
          subst (Describes r.chat) figures d,
          subst (DescribesAny r.inject) (ttfts_if-only is_inject all) i,
        ),
      )

-- The sessions of the newer script.
pub session_outcome-AllChat :
    (envs : ℕ → Env) (is_set : ℕ → ℕ → Bool) (threads : ℕ → World) (args : SessionArgs) (n : ℕ)
    (rows : List Entry)
    → session_outcome envs is_set threads args n ≡ ok rows
    → AllChat rows
unfolding session_outcome run_chat_session
session_outcome-AllChat envs is_set threads args n =
    session_loop-AllChat (envs n) (is_set n) 600 (record args { session_id = n }) n
      (slice_to args.max_turns turns) (threads n)

module _ (envs : ℕ → Env) (is_set : ℕ → ℕ → Bool) (threads : ℕ → World) (args : SessionArgs)
    (env : Env) (draws : ℕ → ℕ → ℕ) (c : ℕ) (w : World) where
  -- Wherever a mixed run is interrupted, with a chat turn in its results: the report is printed, its
  -- chat figures are those of the sessions read, and its injection figures those of the
  -- injections, whatever the order in which the two threads appended.
  pub print_results-threads :
      (m : Mixed) (finished : List ℕ)
      → MainRun envs is_set threads args env draws c w m finished
      → rows_of (session_outcome envs is_set threads args) finished ≢ []
      → IsKept (session_outcome envs is_set threads args) c (sessions_of m.pool) finished
        × IsInjecting env 600
            (λ n. build_cold_prompt (draws n))
            args.url
            args.model
            (session_outcome envs is_set threads args)
            c
            w
            m
        × ((r : Report) × (print_results m ≡ ok (some r))
            × Describes r.chat
                (chat_ttfts (rows_of (session_outcome envs is_set threads args) finished))
            × DescribesAny r.inject (inject_ttfts (only is_inject m.pool.all_results)))
  unfolding print_results
  print_results-threads m finished run =
      MixedRun-report env 600 (λ n. build_cold_prompt (draws n)) args.url args.model
        (session_outcome envs is_set threads args) c w
        (session_outcome-AllChat envs is_set threads args) run
