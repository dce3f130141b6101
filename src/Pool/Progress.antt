-- ===== src/Pool/Progress.antt =====
-- The continuous loop has always something to do.
use mathlib.Core.Path.{subst}
use mathlib.Core.List.{Perm, append_assoc, append-nil}
use mathlib.Core.List.Perm
use ai_infra_demo.Base.{
  ℕ, zero, suc, ◌<◌, ◌≡◌, refl, sym, ap, List, [], ◌∷◌, ◌++◌, length, length-append, arith,
}
use ai_infra_demo.Py.Result.{Result, ok}
use ai_infra_demo.Pool.{Pool, wait_first, read_rows, read_done}
use ai_infra_demo.Pool.Runs.{Run, waited, read, IsKept, Run-IsKept}

module _ {R : Type 0} (outcome : ℕ → Result (List R)) (c : ℕ)
    (returns : (f : ℕ) → (rows : List R) × (outcome f ≡ ok rows)) (some_session : 0 < c) where
  -- A run in which the sessions `more` have been read after those before.
  abbrev pub Goes : List ℕ → ℕ → Type 0
  Goes finished n =
      (q : Pool R) × (more : List ℕ) × (length more ≡ n) × Run outcome c q (finished ++ more)

  read_next :
      (p : Pool R) (finished : List ℕ) (f : ℕ) (rest : List ℕ)
      → Run outcome c p finished
      → p.done ≡ f ∷ rest
      → Goes finished 1
  unfolding read_done
  read_next p finished f rest run next =
      let (rows, returned) = returns f in
      (_, f ∷ [], refl, read f run next (ap (read_rows p rest) returned))

  one_more :
      (p : Pool R) (finished ds : List ℕ) → Run outcome c p finished → p.done ≡ ds → Goes finished 1
  one_more p finished [] run idle = wait_next p.active (Perm.refl p.active) refl
    where
      kept : IsKept outcome c p finished
      kept = Run-IsKept outcome c run

      wait_next :
          (still : List ℕ) → Perm still p.active → length still ≡ length p.active → Goes finished 1
      wait_next [] split len = absurd (omega (arith, kept.running, ap length idle, some_session))
      wait_next (a ∷ still) split len =
          read_next (wait_first (a ∷ still) [] p) finished a still
            (waited (a ∷ still) [] run idle (λ e. cc)
              (subst (λ xs. Perm xs p.active) (sym (append-nil (a ∷ still))) split))
            refl
  one_more p finished (f ∷ rest) run next = read_next p finished f rest run next

  -- Where at least one session is asked for and every session returns: wherever the continuous loop is,
  -- it can go on, to any number of further sessions read.
  pub Run-Goes :
      (p : Pool R) (finished : List ℕ) (n : ℕ) → Run outcome c p finished → Goes finished n
  Run-Goes p finished zero run =
      (p, [], refl, subst (Run outcome c p) (sym (append-nil finished)) run)
  Run-Goes p finished (suc n) run =
      let (q, one, len, next) = one_more p finished p.done run refl in
      let (s, more, count, last) = Run-Goes q (finished ++ one) n next in
      (
        s,
        one ++ more,
        omega (arith, length-append one more, len, count),
        subst (Run outcome c s) (append_assoc finished one more) last,
      )
