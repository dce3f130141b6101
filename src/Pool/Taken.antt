-- ===== src/Pool/Taken.antt =====
-- The sessions that the continuous loop has taken.
use mathlib.Core.Path.{subst}
use mathlib.Core.List.{Perm}
use ai_infra_demo.Base.{ℕ, ◌+◌, ◌≡◌, List, [], ◌∷◌, ◌++◌, All, length, count_from}
use ai_infra_demo.Py.Result.{Result, ok}
use ai_infra_demo.Pool.{Pool, read_done}
use ai_infra_demo.Pool.Runs.{Run, started, waited, read, Run-IsKept, read_rows_returned}

-- All of these sessions have returned.
abbrev pub AllReturned : {R : Type 0} → (ℕ → Result (List R)) → List ℕ → Type 0
AllReturned {R} outcome = All (λ f. (own : List R) × (outcome f ≡ ok own))

pub AllReturned-append :
    {R : Type 0} (outcome : ℕ → Result (List R)) (fs gs : List ℕ)
    → AllReturned outcome fs
    → AllReturned outcome gs
    → AllReturned outcome (fs ++ gs)
AllReturned-append outcome [] gs a b = b
AllReturned-append outcome (f ∷ fs) gs a b = (a.0, AllReturned-append outcome fs gs a.1 b)

module _ {R : Type 0} (outcome : ℕ → Result (List R)) (c : ℕ) where
  pub Run-AllReturned :
      {p : Pool R} {finished : List ℕ} → Run outcome c p finished → AllReturned outcome finished
  unfolding read_done
  Run-AllReturned started = tt
  Run-AllReturned (waited done still run idle some_done split) = Run-AllReturned run
  Run-AllReturned (read {p} {q} {finished} {rest} f run next e) =
      let (rows, returned, _) = read_rows_returned outcome c p q rest (outcome f) e in
      AllReturned-append outcome finished (f ∷ []) (Run-AllReturned run) ((rows, returned), tt)

  -- The sessions started are those asked for, and one for each taken.
  pub Run-numbered :
      {p : Pool R} {finished : List ℕ}
      → Run outcome c p finished
      → Perm (finished ++ (p.done ++ p.active)) (count_from 0 (c + length finished))
  Run-numbered {p} {finished} run =
      let kept = Run-IsKept outcome c run in
      subst (λ n. Perm (finished ++ (p.done ++ p.active)) (count_from 0 n)) kept.counted
        kept.numbered
