-- ===== src/Pool/Completed.antt =====
-- What the loop over `as_completed` gathers, whatever the order of completion.
use mathlib.Core.Logic.{∥∥₁_elim, ∥∥₁_prop}
use mathlib.Core.List.{
  Perm, Permᴰ, append_assoc, append-nil, perm_append_comm, Mem, mem-cons_self, mem-cons_of_mem,
}
use mathlib.Core.Path.{subst}
use mathlib.Core.List.Perm
use mathlib.Core.List.Permᴰ.{nil, cons, swap, trans}
use ai_infra_demo.Base.{ℕ, ◌≡◌, refl, sym, ap, ◌⊎◌, inl, inr, List, [], ◌∷◌, ◌++◌, All, count_from}
use ai_infra_demo.Py.Result.{Error, Result, ok, raised, Result-cases}
use ai_infra_demo.Pool.{read_completed}
use ai_infra_demo.Pool.Runs.{rows_or_none, rows_of}

swap_appended {ℓ} : {A : Type ℓ} (xs ys zs : List A) → Perm (xs ++ (ys ++ zs)) (ys ++ (xs ++ zs))
swap_appended xs ys zs =
    subst (λ us. Perm us (ys ++ (xs ++ zs))) (append_assoc xs ys zs)
      (subst (λ us. Perm ((xs ++ ys) ++ zs) us) (append_assoc ys xs zs)
        (Perm.append_right zs (perm_append_comm xs ys)))

module _ {R : Type 0} (outcome : ℕ → Result (List R)) where
  rows_of-Permᴰ : {xs ys : List ℕ} → Permᴰ xs ys → Perm (rows_of outcome xs) (rows_of outcome ys)
  rows_of-Permᴰ nil = Perm.rfl
  rows_of-Permᴰ (cons {a} {b} {l₁} {l₂} e p) =
      subst (λ f. Perm (rows_of outcome (a ∷ l₁)) (rows_of outcome (f ∷ l₂))) e
        (Perm.append_left (rows_or_none (outcome a)) (rows_of-Permᴰ p))
  rows_of-Permᴰ (swap {a} {b} {a'} {b'} {l} e f) =
      rw (sym e, sym f)
        (swap_appended (rows_or_none (outcome a)) (rows_or_none (outcome b)) (rows_of outcome l))
  rows_of-Permᴰ (trans p q) = Perm.trans (rows_of-Permᴰ p) (rows_of-Permᴰ q)

  pub rows_of-Perm : {xs ys : List ℕ} → Perm xs ys → Perm (rows_of outcome xs) (rows_of outcome ys)
  rows_of-Perm {xs} {ys} p = ∥∥₁_elim p ∥∥₁_prop rows_of-Permᴰ

  -- Either every session returns and their rows are gathered in order, or the first that raised
  -- raises again, and nothing is gathered.
  pub read_completed_cases :
      (order : List ℕ) (rows : List R)
      → (All (λ f. (own : List R) × (outcome f ≡ ok own)) order
          × (read_completed outcome order rows ≡ ok (rows ++ rows_of outcome order)))
        ⊎ ((f : ℕ) × (e : Error) × Mem f order
            × (outcome f ≡ raised e)
            × (read_completed outcome order rows ≡ raised e))
  unfolding read_completed
  read_completed_cases [] rows = inl (tt, ap ok (sym (append-nil rows)))
  read_completed_cases (f ∷ fs) rows = elim (Result-cases (outcome f)) [
    | inl (own, e) ↦ elim (read_completed_cases fs (rows ++ own)) [
      | inl (all, k) ↦
          inl (((own, e), all), rw (e, k) (ap ok (append_assoc rows own (rows_of outcome fs))))
      | inr (g, x, m, failed, k) ↦ inr (g, x, mem-cons_of_mem f m, failed, rw (e, k) refl)
    ]
    | inr (x, e) ↦ inr (f, x, mem-cons_self, e, rw e refl)
  ]

  -- Without `--continuous` and whatever the order in which the sessions complete: if all return,
  -- the results are all their rows, each once; otherwise one of them raised an exception, which
  -- the script ends with.
  pub read_completed_any_order :
      (c : ℕ) (order : List ℕ)
      → Perm order (count_from 0 c)
      → (All (λ f. (own : List R) × (outcome f ≡ ok own)) order
          × (rows : List R) × (read_completed outcome order [] ≡ ok rows)
          × Perm rows (rows_of outcome (count_from 0 c)))
        ⊎ ((f : ℕ) × (e : Error) × Mem f (count_from 0 c)
            × (outcome f ≡ raised e)
            × (read_completed outcome order [] ≡ raised e))
  read_completed_any_order c order p = elim (read_completed_cases order []) [
    | inl (all, e) ↦ inl (all, rows_of outcome order, e, rows_of-Perm p)
    | inr (f, x, m, failed, e) ↦ inr (f, x, (Perm.mem_iff p).0 m, failed, e)
  ]
