-- ===== src/MultiSession/Script.antt =====
-- `__main__` of load_test_multi_session.py as a whole, from its command line to what it prints: both
-- loops over the sessions, Ctrl-C in either of them, and the report.
pub mod Reported
use mathlib.Core.List.{Perm}
use ai_infra_demo.Base.{ℕ, ◌≡◌, Bool, Option, List, [], ◌∷◌, ◌++◌, count_from}
use ai_infra_demo.Base.Int.{ℤ}
use ai_infra_demo.Py.Result.{Error, Result, ok, raised, ◌>>=◌}
use ai_infra_demo.Py.Text.{Text}
use ai_infra_demo.Effects.{Env, World}
use ai_infra_demo.Chat.Session.{SessionArgs}
use ai_infra_demo.Chat.Options.{launch_raised, once, until_interrupt}
use ai_infra_demo.Pool.{Pool, read_completed}
use ai_infra_demo.Pool.Runs.{Run}
use ai_infra_demo.MultiSession.{Row, run_chat_session}
use ai_infra_demo.MultiSession.Options.{main_launch}
use ai_infra_demo.MultiSession.Report.{Report, report}

-- What `f.result()` gives for session n; `is_set n i` is what the stop event answers it after its turn i.
unfoldable pub outcome_of :
    (ℕ → Env) → (ℕ → ℕ → Bool) → (ℕ → World) → SessionArgs → ℕ → Result (List Row)
outcome_of envs is_set threads args n =
    (run_chat_session (envs n) (is_set n) (record args { session_id = n }) (threads n)).0

module _ (read_float : Text → Option ℤ) (envs : ℕ → Env) (is_set : ℕ → ℕ → Bool)
    (threads : ℕ → World) where
  abbrev outcome : SessionArgs → ℕ → Result (List Row)
  outcome args = outcome_of envs is_set threads args

  -- How the script can end, unless by SystemExit, with the sessions that the loop has taken, in order,
  -- and those that were started and not taken. Ctrl-C is met between two rounds of a loop; the loop
  -- without `--continuous` ends by itself where none are left.
  pub data Ends (argv : List Text) : List ℕ → List ℕ → Result (Option Report) → Type 0 where
    not_started :
        {e : Error} → main_launch read_float argv ≡ launch_raised e → Ends argv [] [] (raised e)
    gathered :
        {c : ℕ} {args : SessionArgs}
        → (order left : List ℕ) → main_launch read_float argv ≡ once c args
        → Perm (order ++ left) (count_from 0 c)
        → Ends argv order left (read_completed (outcome args) order [] >>= report)
    interrupted :
        {c : ℕ} {args : SessionArgs} {p : Pool Row} {finished : List ℕ}
        → main_launch read_float argv ≡ until_interrupt c args
        → Run (outcome args) c p finished
        → Ends argv finished (p.done ++ p.active) (report p.all_results)
    failed :
        {c : ℕ} {args : SessionArgs} {p : Pool Row} {finished rest : List ℕ} {e : Error}
        → (f : ℕ) → main_launch read_float argv ≡ until_interrupt c args
        → Run (outcome args) c p finished
        → p.done ≡ f ∷ rest
        → outcome args f ≡ raised e
        → Ends argv finished (p.done ++ p.active) (raised e)
