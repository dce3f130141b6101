-- ===== src/MultiSession/Main/Requests.antt =====
-- How many requests a run without `--continuous` reports.
use mathlib.Core.List.{Perm, Mem}
use ai_infra_demo.Base.{
  ℕ, zero, suc, ◌*◌, ◌<◌, ◌≡◌, ◌≢◌, refl, sym, ap, ◌∙◌, ◌⊎◌, inl, inr, false, some, List, [], ◌∷◌,
  length, length-append, length-Perm, count_from, length-count_from, All, arith,
}
use ai_infra_demo.Py.Result.{Error, Result, ok, raised}
use ai_infra_demo.Py.Slices.{slice_to}
use ai_infra_demo.Effects.{Env, World}
use ai_infra_demo.Chat.Session.{SessionArgs}
use ai_infra_demo.Chat.Session.Rows.{turns_until}
use ai_infra_demo.Pool.Runs.{rows_of}
use ai_infra_demo.Pool.Completed.{rows_of-Perm, read_completed_any_order}
use ai_infra_demo.MultiSession.{Row}
use ai_infra_demo.MultiSession.Turns.{turns}
use ai_infra_demo.MultiSession.Session.{Numbers, run_chat_session-Numbers}
use ai_infra_demo.MultiSession.Report.{Report}
use ai_infra_demo.MultiSession.Report.Laws.{report_total}
use ai_infra_demo.MultiSession.Main.{session_outcome, run_once}

turns_until_never : (i n : ℕ) → turns_until (λ j. false) i n ≡ n
turns_until_never i zero = refl
turns_until_never i (suc n) = ap suc (turns_until_never (suc i) n)

-- Sessions that return n rows each.
length-rows_of :
    {R : Type 0} (outcome : ℕ → Result (List R)) (n : ℕ) (fs : List ℕ)
    → All (λ f. (own : List R) × (outcome f ≡ ok own)) fs
    → ((f : ℕ) (own : List R) → outcome f ≡ ok own → length own ≡ n)
    → length (rows_of outcome fs) ≡ length fs * n
length-rows_of outcome n [] all each = omega arith
length-rows_of outcome n (f ∷ fs) ((own, e), all) each = rw e (
    grind (
      arith,
      length-append own (rows_of outcome fs),
      each f own e,
      length-rows_of outcome n fs all each,
    ))

ok-injective : {A : Type 0} (xs ys : List A) → ok xs ≡ ok ys → xs ≡ ys
ok-injective xs ys e = cc

Numbers-length :
    (session n : ℕ) (w : World) (own : List Row) (out : Result (List Row) × World)
    → Numbers (λ i. false) session n w out
    → out.0 ≡ ok own
    → length own ≡ n
Numbers-length session n w own (ok rows, u) (_, len, _) e =
    ap length (sym (ok-injective rows own e)) ∙ len ∙ turns_until_never 0 n
Numbers-length session n w own (raised x, u) bounds e = cc

-- A list with an element is not empty.
some-length : {A : Type 0} (xs : List A) → 0 < length xs → ◌≢◌ {A = List A} xs []
some-length [] h e = omega arith
some-length (x ∷ xs) h e = cc

module _ (envs : ℕ → Env) (threads : ℕ → World) (args : SessionArgs) where
  session_outcome_rows :
      (f : ℕ) (own : List Row)
      → session_outcome envs threads args f ≡ ok own
      → length own ≡ length (slice_to args.max_turns turns)
  unfolding session_outcome
  session_outcome_rows f own e =
      Numbers-length f (length (slice_to args.max_turns turns)) (threads f) own _
        (run_chat_session-Numbers (envs f) (λ i. false) (record args { session_id = f })
          (threads f))
        e

  -- A run of c sessions with n questions each, in whatever order they complete: it prints a report
  -- of c * n requests, or ends with the exception that one of the sessions raised.
  pub run_once-requests :
      (c : ℕ) (order : List ℕ)
      → Perm order (count_from 0 c)
      → 0 < c * length (slice_to args.max_turns turns)
      → ((r : Report) × (run_once envs threads args order ≡ ok (some r))
          × (r.requests ≡ c * length (slice_to args.max_turns turns)))
        ⊎ ((f : ℕ) × (e : Error) × Mem f (count_from 0 c)
            × (session_outcome envs threads args f ≡ raised e)
            × (run_once envs threads args order ≡ raised e))
  unfolding run_once
  run_once-requests c order p some_turn =
      elim (read_completed_any_order (session_outcome envs threads args) c order p) [
        | inl (all, rows, e, q) ↦
            let outcome = session_outcome envs threads args in
            let n : ℕ = length (slice_to args.max_turns turns) in
            let count : length rows ≡ length (rows_of outcome order) =
              length-Perm q ∙ sym (length-Perm (rows_of-Perm outcome p)) in
            let size : length order ≡ c = length-Perm p ∙ length-count_from 0 c in
            let total : length rows ≡ c * n =
              count
              ∙ length-rows_of outcome n order all (session_outcome_rows)
              ∙ ap (λ k. k * n) size in
            let (r, printed, requests, _, _, _, _, _) =
              report_total rows (some-length rows (omega arith)) in
            inl (r, rw e printed, requests ∙ total)
        | inr (f, x, m, failed, e) ↦ inr (f, x, m, failed, rw e refl)
      ]
