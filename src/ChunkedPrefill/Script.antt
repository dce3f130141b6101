-- ===== src/ChunkedPrefill/Script.antt =====
-- `__main__` of load_test_chunked_prefill.py as a whole, from its command line to what it prints,
-- for the newer version and, around other sessions and injections, for the older: both modes, both
-- loops over the sessions, Ctrl-C in either of them, and the report. The report reads `all_results`
-- once here, though an injector that has not been stopped may append to it meanwhile.
pub mod Reported
use mathlib.Core.List.{Perm, Mem}
use ai_infra_demo.Base.{
  ℕ, ◌≡◌, Bool, Option, none, some, List, [], ◌∷◌, ◌++◌, count_from, if◌then◌else◌,
}
use ai_infra_demo.Base.Int.{ℤ}
use ai_infra_demo.Py.Result.{Error, Result, ok, raised, ◌>>=◌}
use ai_infra_demo.Py.Text.{Text}
use ai_infra_demo.Effects.{Env, World}
use ai_infra_demo.Chat.Session.{SessionArgs}
use ai_infra_demo.Chat.Options.{Launch, launch_raised, once, until_interrupt}
use ai_infra_demo.Pool.{Pool, read_completed}
use ai_infra_demo.Pool.Runs.{Run}
use ai_infra_demo.Injections.{Entry}
use ai_infra_demo.Injections.Mixed.{Mixed, MixedRun}
use ai_infra_demo.Injections.Mixed.Gathered.{GatheredRun}
use ai_infra_demo.Injections.Options.{InjectorArgs, MixedLaunch, mixed_launch}
use ai_infra_demo.ChunkedPrefill.ColdPrompt.{build_cold_prompt}
use ai_infra_demo.ChunkedPrefill.Main.{session_outcome}
use ai_infra_demo.ChunkedPrefill.Report.{Report, report}

-- `outcome args` are the sessions with these options, `prompt` and `max_tokens` the injections. `env` and
-- `w` are what the injector sees.
module _ (env : Env) (max_tokens : ℕ) (prompt : ℕ → Text)
    (outcome : SessionArgs → ℕ → Result (List Entry)) (w : World) where
  -- What the loop of a launch passes through: the sessions that it has taken, in order, those that were
  -- started and not taken, the rounds of the injector, and `all_results`.
  pub data Loop (args : SessionArgs) : MixedLaunch → List ℕ → List ℕ → ℕ → List Entry → Type 0 where
    chats_once :
        {c : ℕ} {rows : List Entry}
        → (order left : List ℕ) → Perm (order ++ left) (count_from 0 c)
        → read_completed (outcome args) order [] ≡ ok rows
        → Loop args (record { injector = none; sessions = once c args }) order left 0 rows
    chats_continuous :
        {c : ℕ} {p : Pool Entry} {finished : List ℕ}
        → Run (outcome args) c p finished
        → Loop args
            (record { injector = none; sessions = until_interrupt c args })
            finished
            (p.done ++ p.active)
            0
            p.all_results
    mixed_once :
        {inj : InjectorArgs} {c : ℕ} {m : Mixed} {order : List ℕ}
        → (left : List ℕ) → Perm (order ++ left) (count_from 0 c)
        → GatheredRun env max_tokens prompt inj.url inj.model (outcome args) c w m order
        → Loop args
            (record { injector = some inj; sessions = once c args })
            order
            left
            m.inject_id
            m.pool.all_results
    mixed_continuous :
        {inj : InjectorArgs} {c : ℕ} {m : Mixed} {finished : List ℕ}
        → MixedRun env max_tokens prompt inj.url inj.model (outcome args) c w m finished
        → Loop args
            (record { injector = some inj; sessions = until_interrupt c args })
            finished
            (m.pool.done ++ m.pool.active)
            m.inject_id
            m.pool.all_results

  -- How the script can end, unless by SystemExit, with the sessions taken, those started and not taken,
  -- and the rounds of the injector by then. Ctrl-C is met between two rounds of a loop; the loop without
  -- `--continuous` ends by itself where no session is left. A session that has raised ends the script
  -- when it is taken.
  pub data Ends (launched : Option MixedLaunch)
      : List ℕ → List ℕ → ℕ → Result (Option Report) → Type 0 where
    not_started :
        {injector : Option InjectorArgs} {e : Error}
        → launched ≡ some (record { injector = injector; sessions = launch_raised e })
        → Ends launched [] [] 0 (raised e)
    printed :
        {finished left : List ℕ} {k : ℕ} {all : List Entry}
        → (args : SessionArgs) → (l : MixedLaunch) → launched ≡ some l
        → Loop args l finished left k all
        → Ends launched finished left k (report all)
    failed :
        {finished left : List ℕ} {k : ℕ} {all : List Entry} {e : Error}
        → (args : SessionArgs) → (l : MixedLaunch) → (f : ℕ) → launched ≡ some l
        → Loop args l finished left k all
        → Mem f left
        → outcome args f ≡ raised e
        → Ends launched finished left k (raised e)

-- `envs`, `is_set` and `threads` are what the sessions see, `draws` the random numbers of the injections.
module _ (read_float : Text → Option ℤ) (envs : ℕ → Env) (is_set : ℕ → ℕ → Bool)
    (threads : ℕ → World) (env : Env) (draws : ℕ → ℕ → ℕ) (w : World) where
  abbrev pub MixedEnds : List Text → List ℕ → List ℕ → ℕ → Result (Option Report) → Type 0
  MixedEnds argv =
      Ends env 600 (λ n. build_cold_prompt (draws n)) (session_outcome envs is_set threads) w
        (mixed_launch read_float argv)
