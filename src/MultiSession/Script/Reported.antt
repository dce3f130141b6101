-- ===== src/MultiSession/Script/Reported.antt =====
-- What load_test_multi_session.py prints, however it ends.
use mathlib.Core.List.{Perm, Mem, mem-cons_self, mem-append_left, mem-append_right}
use mathlib.Core.Path.{subst}
use ai_infra_demo.Base.{
  ℕ, ◌+◌, ◌≡◌, refl, sym, ◌⊎◌, inl, inr, Bool, Option, none, some, List, [], ◌∷◌, ◌++◌, length,
  count_from,
}
use ai_infra_demo.Base.Int.{ℤ}
use ai_infra_demo.Py.Result.{Error, Result, ok, raised, ◌>>=◌}
use ai_infra_demo.Py.Text.{Text}
use ai_infra_demo.Effects.{Env, World}
use ai_infra_demo.Chat.Session.{SessionArgs}
use ai_infra_demo.Chat.Options.{launch_raised}
use ai_infra_demo.Chat.Options.Starts.{Starts}
use ai_infra_demo.Pool.{Pool, read_completed}
use ai_infra_demo.Pool.Runs.{Run, Run-IsKept, IsKept, rows_of}
use ai_infra_demo.Pool.Taken.{AllReturned, Run-AllReturned, Run-numbered}
use ai_infra_demo.Pool.Completed.{read_completed_cases}
use ai_infra_demo.MultiSession.{Row}
use ai_infra_demo.MultiSession.Options.{main_launch}
use ai_infra_demo.MultiSession.Report.{Report, report}
use ai_infra_demo.MultiSession.Report.Laws.{report_total}
use ai_infra_demo.MultiSession.Script.{outcome_of, Ends, not_started, gathered, interrupted, failed}

-- "No results collected.", or a report of which the table holds the rows, each once.
abbrev pub PrintsRows : List Row → Result (Option Report) → Type 0
PrintsRows rows out =
    ((rows ≡ []) × (out ≡ ok none))
    ⊎ ((r : Report) × (out ≡ ok (some r)) × (r.requests ≡ length rows) × Perm r.table rows)

report-PrintsRows : (rows : List Row) → PrintsRows rows (report rows)
unfolding report
report-PrintsRows [] = inl (refl, refl)
report-PrintsRows (x ∷ xs) =
    let (r, printed, requests, table, _, _, _, _) = report_total (x ∷ xs) (λ e. cc) in
    inr (r, printed, requests, table)

-- Of the sessions 1 to n that were started, those in `finished` have been taken and those in `left` have
-- not. All taken have returned and their rows are reported, or one of the n ends the script by its
-- exception.
abbrev pub Reported :
    (ℕ → Result (List Row)) → ℕ → List ℕ → List ℕ → Result (Option Report) → Type 0
Reported outcome n finished left out =
    Perm (finished ++ left) (count_from 0 n)
    × ((AllReturned outcome finished × PrintsRows (rows_of outcome finished) out)
        ⊎ ((f : ℕ) × (e : Error) × Mem f (finished ++ left)
            × (outcome f ≡ raised e)
            × (out ≡ raised e)))

read_completed-Reported :
    (outcome : ℕ → Result (List Row)) (order left : List ℕ) (c : ℕ)
    → Perm (order ++ left) (count_from 0 c)
    → Reported outcome c order left (read_completed outcome order [] >>= report)
read_completed-Reported outcome order left c p = (
  p,
  elim (read_completed_cases outcome order []) [
    | inl (all, e) ↦ inl (all, rw e (report-PrintsRows (rows_of outcome order)))
    | inr (f, x, m, raises, e) ↦ inr (f, x, mem-append_left left m, raises, rw e refl)
  ],
)

Run-Reported :
    (outcome : ℕ → Result (List Row)) (c : ℕ) (p : Pool Row) (finished : List ℕ)
    → Run outcome c p finished
    → Reported outcome (c + length finished) finished (p.done ++ p.active) (report p.all_results)
Run-Reported outcome c p finished run =
    let kept : IsKept outcome c p finished = Run-IsKept outcome c run in
    (
      Run-numbered outcome c run,
      inl (
        Run-AllReturned outcome c run,
        subst (λ rows. PrintsRows (rows_of outcome finished) (report rows)) (sym kept.results)
            (report-PrintsRows (rows_of outcome finished)),
      ),
    )

failed-Reported :
    (outcome : ℕ → Result (List Row)) (c : ℕ) (p : Pool Row) (finished rest : List ℕ) (f : ℕ)
    (e : Error)
    → Run outcome c p finished
    → p.done ≡ f ∷ rest
    → outcome f ≡ raised e
    → Reported outcome (c + length finished) finished (p.done ++ p.active) (raised e)
failed-Reported outcome c p finished rest f e run next raises = (
  Run-numbered outcome c run,
  inr (
    f,
    e,
    mem-append_right finished (subst (λ ds. Mem f (ds ++ p.active)) (sym next) mem-cons_self),
    raises,
    refl,
  ),
)

module _ (read_float : Text → Option ℤ) (envs : ℕ → Env) (is_set : ℕ → ℕ → Bool)
    (threads : ℕ → World) where
  -- What the script has done when it ends: it started no session and raises, or it reports.
  abbrev pub Ended : List Text → List ℕ → List ℕ → Result (Option Report) → Type 0
  Ended argv finished left out =
      ((e : Error) × (main_launch read_float argv ≡ launch_raised e)
        × (finished ≡ [])
        × (left ≡ [])
        × (out ≡ raised e))
      ⊎ ((args : SessionArgs) × (n : ℕ) × Starts (main_launch read_float argv) args
            (length finished) n
          × Reported (outcome_of envs is_set threads args) n finished left out)

  -- However the script ends, by itself, by Ctrl-C in either loop or by an exception, when it has taken
  -- the sessions `finished` and not those in `left`: it started no session and raises; or these are the
  -- sessions that it started, each once, as many as asked for and with `--continuous` one more for each
  -- taken, and either all that were taken have returned and it prints the report of exactly their
  -- rows, each once ("No results collected." where they have none), or it ends with the exception that
  -- one of the sessions raised.
  pub Ends-Reported :
      (argv : List Text) (finished left : List ℕ) (out : Result (Option Report))
      → Ends read_float envs is_set threads argv finished left out
      → Ended argv finished left out
  Ends-Reported argv finished left out (not_started {e} l) = inl (e, l, refl, refl, refl)
  Ends-Reported argv finished left out (gathered {c} {args} order left' l p) =
      inr (args, c, rw l (refl, refl), read_completed-Reported _ order left' c p)
  Ends-Reported argv finished left out (interrupted {c} {args} {p} l run) =
      inr (args, c + length finished, rw l (refl, refl), Run-Reported _ c p finished run)
  Ends-Reported argv finished left out (failed {c} {args} {p} {rest} {e} f l run next raises) =
      inr (
        args,
        c + length finished,
        rw l (refl, refl),
        failed-Reported _ c p finished rest f e run next raises,
      )
