-- ===== src/ChunkedPrefill/Script/Reported.antt =====
-- What load_test_chunked_prefill.py prints, however it ends.
use mathlib.Core.List.{Perm, Mem}
use mathlib.Core.Path.{subst}
use ai_infra_demo.Base.{
  ℕ, ◌+◌, length, ◌≡◌, ◌≢◌, refl, sym, ap, ◌∙◌, ◌⊎◌, inl, inr, Bool, Option, none, some, List, [],
  ◌∷◌, ◌++◌, count_from,
}
use ai_infra_demo.Base.Int.{ℤ}
use ai_infra_demo.Py.Result.{Error, Result, ok, raised, Result-cases}
use ai_infra_demo.Py.Text.{Text}
use ai_infra_demo.Effects.{Env, World}
use ai_infra_demo.Chat.Session.{SessionArgs}
use ai_infra_demo.Chat.Options.{launch_raised}
use ai_infra_demo.Pool.{read_completed}
use ai_infra_demo.Pool.Runs.{Run-IsKept, IsKept, rows_of}
use ai_infra_demo.Pool.Completed.{read_completed_cases}
use ai_infra_demo.Injections.{Entry, is_chat, is_inject}
use ai_infra_demo.Pool.Taken.{AllReturned, Run-AllReturned, Run-numbered}
use ai_infra_demo.Chat.Options.Starts.{Starts}
use ai_infra_demo.Injections.Alone.{alone}
use ai_infra_demo.Injections.Mixed.Sessions.{MixedRun-Run}
use ai_infra_demo.Injections.Mixed.Entries.{only, AllChat, only_chat-AllChat, only_inject-AllChat}
use ai_infra_demo.Injections.Mixed.Gathered.{
  GatheredRun-AllReturned, GatheredRun-rows, GatheredRun-IsInjecting,
}
use ai_infra_demo.Injections.Mixed.Threads.{MixedRun-threads}
use ai_infra_demo.Injections.Options.{InjectorArgs, MixedLaunch, mixed_launch}
use ai_infra_demo.ChunkedPrefill.ColdPrompt.{build_cold_prompt}
use ai_infra_demo.ChunkedPrefill.Main.{session_outcome}
use ai_infra_demo.ChunkedPrefill.Main.Threads.{session_outcome-AllChat}
use ai_infra_demo.ChunkedPrefill.Report.{Report, report}
use ai_infra_demo.ChunkedPrefill.Report.Entries.{PrintsEntries, report-PrintsEntries}
use ai_infra_demo.ChunkedPrefill.Script.{
  Ends, Loop, MixedEnds, not_started, failed, printed, chats_once, chats_continuous, mixed_once,
  mixed_continuous,
}

AllChat-append : (xs ys : List Entry) → AllChat xs → AllChat ys → AllChat (xs ++ ys)
AllChat-append [] ys hs ks = ks
AllChat-append (x ∷ xs) ys hs ks = (hs.0, AllChat-append xs ys hs.1 ks)

module _ (outcome : ℕ → Result (List Entry))
    (chats : (n : ℕ) (rows : List Entry) → outcome n ≡ ok rows → AllChat rows) where
  rows_of-AllChat : (fs : List ℕ) → AllChat (rows_of outcome fs)
  rows_of-AllChat [] = tt
  rows_of-AllChat (f ∷ fs) = elim (Result-cases (outcome f)) [
    | inl (own, e) ↦
        rw e (AllChat-append own (rows_of outcome fs) (chats f own e) (rows_of-AllChat fs))
    | inr (x, e) ↦ rw e (rows_of-AllChat fs)
  ]

-- What the loop over `as_completed` gathers are the rows of the sessions in its order.
read_completed_rows :
    (outcome : ℕ → Result (List Entry)) (order : List ℕ) (rows : List Entry)
    → read_completed outcome order [] ≡ ok rows
    → AllReturned outcome order × (rows ≡ rows_of outcome order)
read_completed_rows outcome order rows gathered = elim (read_completed_cases outcome order []) [
  | inl (all, e) ↦ (all, ok-injective (sym gathered ∙ e))
  | inr (f, x, m, raises, e) ↦ absurd (ok-ne-raised (sym gathered ∙ e))
]
  where
    ok-injective : {xs ys : List Entry} → ok xs ≡ ok ys → xs ≡ ys
    ok-injective e = cc

    ok-ne-raised : {xs : List Entry} {x : Error} → ok xs ≢ raised x
    ok-ne-raised e = cc

-- What k rounds of the injector of a launch append to a list of their own, without any sessions.
module _ (env : Env) (max_tokens : ℕ) (prompt : ℕ → Text) (w : World) where
  abbrev pub injections_of : Option InjectorArgs → ℕ → List Entry
  injections_of none k = []
  injections_of (some inj) k = (alone env max_tokens prompt inj.url inj.model w k).0

  module _ (outcome : SessionArgs → ℕ → Result (List Entry)) where
    -- Of the sessions 1 to n that were started, those in `finished` have been taken, in order, and have
    -- returned, and those in `left` have not been taken. The chat turns in `all` are the rows of the
    -- first, and the injections are those of k rounds.
    abbrev pub Gathers : MixedLaunch → SessionArgs → List ℕ → List ℕ → ℕ → ℕ → List Entry → Type 0
    Gathers l args finished left k n all =
        Starts l.sessions args (length finished) n
        × Perm (finished ++ left) (count_from 0 n)
        × AllReturned (outcome args) finished
        × (only is_chat all ≡ rows_of (outcome args) finished)
        × (only is_inject all ≡ injections_of l.injector k)

    -- What a launch can end with: a session that cannot be started, or the report of what was gathered,
    -- or the exception of a session that was still to be taken.
    abbrev pub Outcomes : Option MixedLaunch → List ℕ → List ℕ → ℕ → Result (Option Report) → Type 0
    Outcomes launched finished left k out =
        (l : MixedLaunch) × (launched ≡ some l)
        × (((e : Error) × (l.sessions ≡ launch_raised e)
              × (finished ≡ [])
              × (left ≡ [])
              × (out ≡ raised e))
            ⊎ ((args : SessionArgs) × (n : ℕ) × Starts l.sessions args (length finished) n
                × Perm (finished ++ left) (count_from 0 n)
                × AllReturned (outcome args) finished
                × (PrintsEntries (rows_of (outcome args) finished) (injections_of l.injector k) out
                    ⊎ ((f : ℕ) × (e : Error) × Mem f left
                        × (outcome args f ≡ raised e)
                        × (out ≡ raised e)))))

    module _
        (chats : (args : SessionArgs) (n : ℕ) (rows : List Entry)
          → outcome args n ≡ ok rows
          → AllChat rows) where
      -- Sessions alone leave no injections.
      chats-Gathers :
          (l : MixedLaunch) (args : SessionArgs) (finished left : List ℕ) (n : ℕ) (all : List Entry)
          → l.injector ≡ none
          → Starts l.sessions args (length finished) n
          → Perm (finished ++ left) (count_from 0 n)
          → AllReturned (outcome args) finished
          → all ≡ rows_of (outcome args) finished
          → Gathers l args finished left 0 n all
      chats-Gathers l args finished left n all no_injector s p returned e = (
        s,
        p,
        returned,
        ap (only is_chat) e
            ∙ only_chat-AllChat _ (rows_of-AllChat (outcome args) (chats args) finished),
        ap (only is_inject) e
            ∙ only_inject-AllChat _ (rows_of-AllChat (outcome args) (chats args) finished)
            ∙ sym (ap (λ i. injections_of i 0) no_injector),
      )

      Loop-Gathers :
          (args : SessionArgs) (l : MixedLaunch) (finished left : List ℕ) (k : ℕ) (all : List Entry)
          → Loop env max_tokens prompt outcome w args l finished left k all
          → (n : ℕ) × Gathers l args finished left k n all
      Loop-Gathers args l finished left k all (chats_once {c} order left' p gathered) =
          let (returned, e) = read_completed_rows (outcome args) order all gathered in
          (c, chats-Gathers l args order left c all refl (refl, refl) p returned e)
      Loop-Gathers args l finished left k all (chats_continuous {c} {p} run) =
          let kept : IsKept (outcome args) c p finished = Run-IsKept (outcome args) c run in
          (
            c + length finished,
            chats-Gathers l args finished left _ all refl (refl, refl)
                (Run-numbered (outcome args) c run) (Run-AllReturned (outcome args) c run)
                kept.results,
          )
      Loop-Gathers args l finished left k all (mixed_once {inj} {c} {m} left' p run) = (
        c,
        (
          (refl, refl),
          p,
          GatheredRun-AllReturned env max_tokens prompt inj.url inj.model (outcome args) c w run,
          GatheredRun-rows env max_tokens prompt inj.url inj.model (outcome args) c w (chats args)
              run,
          ap (λ (s : List Entry × World). s.0)
              (GatheredRun-IsInjecting env max_tokens prompt inj.url inj.model (outcome args) c w
                (chats args) run).unmixed,
        ),
      )
      Loop-Gathers args l finished left k all (mixed_continuous {inj} {c} {m} run) =
          let pooled =
            MixedRun-Run env max_tokens prompt inj.url inj.model (outcome args) c w (chats args)
              run in
          let (kept, injecting) =
            MixedRun-threads env max_tokens prompt inj.url inj.model (outcome args) c w (chats args)
              run in
          (
            c + length finished,
            (
              (refl, refl),
              Run-numbered (outcome args) c pooled,
              Run-AllReturned (outcome args) c pooled,
              kept.results,
              ap (λ (s : List Entry × World). s.0) injecting.unmixed,
            ),
          )

      pub Ends-Outcomes :
          (launched : Option MixedLaunch) (finished left : List ℕ) (k : ℕ)
          (out : Result (Option Report))
          → Ends env max_tokens prompt outcome w launched finished left k out
          → Outcomes launched finished left k out
      Ends-Outcomes launched finished left k out (not_started {injector} {e} l) =
          (_, l, inl (e, refl, refl, refl, refl))
      Ends-Outcomes launched finished left k out (printed {all} args l is_launch loop) =
          let (n, (s, p, returned, c, i)) = Loop-Gathers args l finished left k all loop in
          (
            l,
            is_launch,
            inr (
              args,
              n,
              s,
              p,
              returned,
              inl (
                  subst (λ es. PrintsEntries (rows_of (outcome args) finished) es (report all)) i
                    (report-PrintsEntries all _ c)),
            ),
          )
      Ends-Outcomes launched finished left k out
            (failed {all} {e} args l f is_launch loop m raises) =
          let (n, (s, p, returned, _, _)) = Loop-Gathers args l finished left k all loop in
          (l, is_launch, inr (args, n, s, p, returned, inr (f, e, m, raises, refl)))

-- However the newer script ends, in either mode and by itself, by Ctrl-C in either loop or by an exception,
-- when it has taken the sessions `finished` and not those in `left`, and its injector has made k rounds:
-- it started no session and raises; or these are the sessions that it started, each once, as many as
-- asked for and with `--continuous` one more for each taken, all that were taken have returned, and
-- either it ends with the exception of one that was left, or its figures describe exactly the rows of
-- the sessions taken and the entries that the injector would have appended in k rounds without any
-- sessions (none but with `--mode mixed`), in whatever order both were appended: "No results
-- collected." where there are neither, and StatisticsError where there are entries of the injector
-- alone.
pub mixed_Ends-Reported :
    (read_float : Text → Option ℤ) (envs : ℕ → Env) (is_set : ℕ → ℕ → Bool) (threads : ℕ → World)
    (env : Env) (draws : ℕ → ℕ → ℕ) (w : World) (argv : List Text) (finished left : List ℕ) (k : ℕ)
    (out : Result (Option Report))
    → MixedEnds read_float envs is_set threads env draws w argv finished left k out
    → Outcomes env 600
        (λ n. build_cold_prompt (draws n))
        w
        (session_outcome envs is_set threads)
        (mixed_launch read_float argv)
        finished
        left
        k
        out
mixed_Ends-Reported read_float envs is_set threads env draws w argv =
    Ends-Outcomes env 600 (λ n. build_cold_prompt (draws n)) w (session_outcome envs is_set threads)
      (session_outcome-AllChat envs is_set threads) (mixed_launch read_float argv)
