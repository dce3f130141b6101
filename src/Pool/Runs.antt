-- ===== src/Pool/Runs.antt =====
-- What holds wherever the continuous loop is looked at, and so where Ctrl-C leaves it.
use mathlib.Core.Path.{subst}
use mathlib.Core.List.{Perm, append_assoc, append-nil}
use mathlib.Core.List.Perm
use ai_infra_demo.Base.{
  ℕ, zero, suc, ◌+◌, ◌≡◌, ◌≢◌, refl, sym, ◌∙◌, ap, List, [], ◌∷◌, ◌++◌, length, length-append,
  length-Perm, count_from, count_from_next, length-count_from, arith,
}
use ai_infra_demo.Py.Result.{Result, ok, raised}
use ai_infra_demo.Pool.{
  Pool, no_sessions, new_session, add_session, start, wait_first, read_rows, read_done,
}

module _ {R : Type 0} (outcome : ℕ → Result (List R)) (c : ℕ) where
  -- The states that the continuous loop passes through, with the sessions read so far, in order.
  pub data Run : Pool R → List ℕ → Type 0 where
    started : Run (start c no_sessions) []
    waited :
        {p : Pool R} {finished : List ℕ}
        → (done still : List ℕ) → Run p finished
        → p.done ≡ []
        → done ≢ []
        → Perm (done ++ still) p.active
        → Run (wait_first done still p) finished
    read :
        {p q : Pool R} {finished rest : List ℕ}
        → (f : ℕ) → Run p finished
        → p.done ≡ f ∷ rest
        → read_done outcome f rest p ≡ ok q
        → Run q (finished ++ f ∷ [])

-- The rows of the sessions that return, one after the other.
abbrev pub rows_or_none : {R : Type 0} → Result (List R) → List R
rows_or_none (ok rows) = rows
rows_or_none (raised e) = []

abbrev pub rows_of : {R : Type 0} → (ℕ → Result (List R)) → List ℕ → List R
rows_of outcome [] = []
rows_of outcome (f ∷ fs) = rows_or_none (outcome f) ++ rows_of outcome fs

pub rows_of-append :
    {R : Type 0} (outcome : ℕ → Result (List R)) (fs gs : List ℕ)
    → rows_of outcome (fs ++ gs) ≡ rows_of outcome fs ++ rows_of outcome gs
rows_of-append outcome [] gs = refl
rows_of-append outcome (f ∷ fs) gs =
    ap (◌++◌ (rows_or_none (outcome f))) (rows_of-append outcome fs gs)
    ∙ sym (append_assoc (rows_or_none (outcome f)) (rows_of outcome fs) (rows_of outcome gs))

-- Sessions are numbered from 1 on, each is read, about to be read or active, never two of these,
-- and those not yet read are as many as were asked for.
module _ {R : Type 0} (outcome : ℕ → Result (List R)) (c : ℕ) where
  pub record IsKept (p : Pool R) (finished : List ℕ) : Type 0 where
    pub numbered : Perm (finished ++ (p.done ++ p.active)) (count_from 0 p.session_counter)
    pub running : length p.done + length p.active ≡ c
    pub counted : p.session_counter ≡ c + length finished
    pub results : p.all_results ≡ rows_of outcome finished

  -- Starting n sessions in a pool that has k.
  abbrev pub Started : ℕ → Pool R → Type 0
  Started k p =
      (p.active ≡ count_from 0 k) × (p.session_counter ≡ k) × (p.done ≡ []) × (p.all_results ≡ [])

  add_session-Started : (k : ℕ) (p : Pool R) → Started k p → Started (suc k) (add_session p)
  unfolding add_session new_session
  add_session-Started k p (a, b, d, e) = (
    ap (λ xs. xs ++ suc p.session_counter ∷ []) a
        ∙ ap (λ m. count_from 0 k ++ suc m ∷ []) b
        ∙ sym (count_from_next k),
    ap suc b,
    d,
    e,
  )

  pub start-Started : (n k m : ℕ) (p : Pool R) → k + n ≡ m → Started k p → Started m (start n p)
  unfolding start
  start-Started zero k m p len s = subst (λ j. Started j p) (omega arith) s
  start-Started (suc n) k m p len s =
      start-Started n (suc k) m (add_session p) (omega arith) (add_session-Started k p s)

  Started-IsKept : (p : Pool R) → Started c p → IsKept p []
  Started-IsKept p (a, b, d, e) = record {
    numbered = rw (a, b, d) Perm.rfl;
    running = rw (a, d, length-count_from 0 c) (omega arith);
    counted = rw b (omega arith);
    results = e;
  }

  wait_first-IsKept :
      (p : Pool R) (finished done still : List ℕ)
      → p.done ≡ []
      → Perm (done ++ still) p.active
      → IsKept p finished
      → IsKept (wait_first done still p) finished
  wait_first-IsKept p finished done still idle split kept = record {
    numbered = Perm.trans (Perm.append_left finished split) (
        subst
          (λ (ds : List ℕ). Perm (finished ++ (ds ++ p.active)) (count_from 0 p.session_counter))
          idle kept.numbered);
    running =
        omega (arith, length-Perm split, length-append done still, ap length idle, kept.running);
    counted = kept.counted;
    results = kept.results;
  }

  pub read_rows_returned :
      (p q : Pool R) (rest : List ℕ) (o : Result (List R))
      → read_rows p rest o ≡ ok q
      → (rows : List R) × (o ≡ ok rows)
        × (q ≡ add_session (record p { done = rest; all_results = p.all_results ++ rows }))
  read_rows_returned p q rest (ok rows) e = (rows, refl, cc)
  read_rows_returned p q rest (raised x) e = cc

  -- A session that returned is read, and a new one with the next number is active.
  moved :
      (xs rest active : List ℕ) (f n : ℕ)
      → (xs ++ f ∷ []) ++ (rest ++ (active ++ n ∷ [])) ≡ (xs ++ (f ∷ (rest ++ active))) ++ n ∷ []
  moved xs rest active f n =
      append_assoc xs (f ∷ []) (rest ++ (active ++ n ∷ []))
      ∙ ap (λ ys. xs ++ (f ∷ ys)) (sym (append_assoc rest active (n ∷ [])))
      ∙ sym (append_assoc xs (f ∷ (rest ++ active)) (n ∷ []))

  next-IsKept :
      (p : Pool R) (finished rest : List ℕ) (f : ℕ) (rows : List R)
      → p.done ≡ f ∷ rest
      → outcome f ≡ ok rows
      → IsKept p finished
      → IsKept
          (add_session (record p { done = rest; all_results = p.all_results ++ rows }))
          (finished ++ f ∷ [])
  unfolding add_session new_session
  next-IsKept p finished rest f rows next returned kept = record {
    numbered =
        rw
          (
            moved finished rest p.active f (suc p.session_counter),
            count_from_next p.session_counter,
          )
          (Perm.append_right (suc p.session_counter ∷ []) (
            subst
              (λ (ds : List ℕ).
                Perm (finished ++ (ds ++ p.active)) (count_from 0 p.session_counter))
              next kept.numbered));
    running =
        omega (
          arith,
          kept.running,
          ap length next,
          length-append p.active (suc p.session_counter ∷ []),
        );
    counted = omega (arith, kept.counted, length-append finished (f ∷ []));
    results =
        rw (kept.results, rows_of-append outcome finished (f ∷ []), returned)
          (ap (◌++◌ (rows_of outcome finished)) (sym (append-nil rows)));
  }

  read_done-IsKept :
      (p q : Pool R) (finished rest : List ℕ) (f : ℕ)
      → p.done ≡ f ∷ rest
      → read_done outcome f rest p ≡ ok q
      → IsKept p finished
      → IsKept q (finished ++ f ∷ [])
  unfolding read_done
  read_done-IsKept p q finished rest f next e kept =
      let (rows, returned, is) = read_rows_returned p q rest (outcome f) e in
      subst (λ (r : Pool R). IsKept r (finished ++ f ∷ [])) (sym is)
        (next-IsKept p finished rest f rows next returned kept)

  -- Wherever the continuous loop is interrupted: the sessions have the numbers from 1 on, each is
  -- read, about to be read or active and never two of these; the sessions not yet read are as many
  -- as were asked for; the results are the rows of the sessions that were read, in that order.
  pub Run-IsKept : {p : Pool R} {finished : List ℕ} → Run outcome c p finished → IsKept p finished
  Run-IsKept started =
      Started-IsKept (start c no_sessions)
        (start-Started c 0 c no_sessions (omega arith) (refl, refl, refl, refl))
  Run-IsKept (waited done still run idle some_done split) =
      wait_first-IsKept _ _ done still idle split (Run-IsKept run)
  Run-IsKept (read f run next e) = read_done-IsKept _ _ _ _ f next e (Run-IsKept run)
