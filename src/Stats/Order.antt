-- ===== src/Stats/Order.antt =====
-- The statistics do not depend on the order of the values.
use mathlib.Core.Logic.{∥∥₁_elim}
use mathlib.Core.List.{Perm, Permᴰ}
use mathlib.Core.List
use native.Mathlib.Nat.{ℕ_set}
use mathlib.Core.List.Permᴰ.{nil, cons, swap, trans}
use ai_infra_demo.Base.{ℕ, ◌≡◌, refl, sym, ◌∙◌, ap, List, [], ◌∷◌, length, length-Perm, arith, leb}
use ai_infra_demo.Stats.{
  insert_sorted, sort_by, sorted, p95, double_middle, double_median, larger, maximum,
}
use ai_infra_demo.Py.Result.{Result, ok, raised}
use ai_infra_demo.Stats.Percentile.{maximum_total}

insert_sorted_comm :
    (x y : ℕ) (zs : List ℕ)
    → insert_sorted leb x (insert_sorted leb y zs) ≡ insert_sorted leb y (insert_sorted leb x zs)
unfolding insert_sorted
insert_sorted_comm x y [] = ground arith
insert_sorted_comm x y (z ∷ zs) = ground (arith, insert_sorted_comm x y zs)

sorted-Permᴰ : {xs ys : List ℕ} → Permᴰ xs ys → sorted xs ≡ sorted ys
unfolding sort_by
sorted-Permᴰ nil = refl
sorted-Permᴰ (cons {a} {b} {l₁} {l₂} e p) =
    ap (λ z. insert_sorted leb z (sorted l₁)) e ∙ ap (insert_sorted leb b) (sorted-Permᴰ p)
sorted-Permᴰ (swap {a} {b} {a'} {b'} {l} e f) =
    rw (sym e, sym f) (insert_sorted_comm a b (sorted l))
sorted-Permᴰ (trans p q) = sorted-Permᴰ p ∙ sorted-Permᴰ q

pub sorted-Perm : {xs ys : List ℕ} → Perm xs ys → sorted xs ≡ sorted ys
sorted-Perm {xs} {ys} p = ∥∥₁_elim p (List.is_set ℕ_set (sorted xs) (sorted ys)) sorted-Permᴰ

pub p95-Perm : (xs ys : List ℕ) → Perm xs ys → p95 xs ≡ p95 ys
unfolding p95
p95-Perm xs ys p = rw (sorted-Perm p, length-Perm p) refl

pub double_median-Perm : (xs ys : List ℕ) → Perm xs ys → double_median xs ≡ double_median ys
unfolding double_median
double_median-Perm [] [] p = refl
double_median-Perm [] (y ∷ ys) p = absurd (omega (arith, length-Perm p))
double_median-Perm (x ∷ xs) [] p = absurd (omega (arith, length-Perm p))
double_median-Perm (x ∷ xs) (y ∷ ys) p =
    ap (λ s. double_middle s (length (x ∷ xs))) (sorted-Perm p)
    ∙ ap (double_middle (sorted (y ∷ ys))) (length-Perm p)

-- The larger of a value and a maximum, where there is one.
abbrev with_maximum : ℕ → Result ℕ → Result ℕ
with_maximum x (ok m) = ok (larger x m)
with_maximum x (raised e) = ok x

maximum_cons : (x : ℕ) (xs : List ℕ) → maximum (x ∷ xs) ≡ with_maximum x (maximum xs)
unfolding maximum
maximum_cons x [] = refl
maximum_cons x (y ∷ ys) = let (m, e) = maximum_total y ys in rw e refl

with_maximum_comm :
    (x y : ℕ) (r : Result ℕ) → with_maximum x (with_maximum y r) ≡ with_maximum y (with_maximum x r)
with_maximum_comm x y (ok m) = ground arith
with_maximum_comm x y (raised e) = ground arith

maximum-Permᴰ : {xs ys : List ℕ} → Permᴰ xs ys → maximum xs ≡ maximum ys
maximum-Permᴰ nil = refl
maximum-Permᴰ (cons {a} {b} {l₁} {l₂} e p) =
    maximum_cons a l₁
    ∙ ap (λ z. with_maximum z (maximum l₁)) e
    ∙ ap (with_maximum b) (maximum-Permᴰ p)
    ∙ sym (maximum_cons b l₂)
maximum-Permᴰ (swap {a} {b} {a'} {b'} {l} e f) =
    rw
      (
        sym e,
        sym f,
        maximum_cons a (b ∷ l),
        maximum_cons b l,
        maximum_cons b (a ∷ l),
        maximum_cons a l,
      )
      (with_maximum_comm a b (maximum l))
maximum-Permᴰ (trans p q) = maximum-Permᴰ p ∙ maximum-Permᴰ q

ok-injective : (m k : ℕ) → ok m ≡ ok k → m ≡ k
ok-injective m k e = cc

pub maximum-Perm : (xs ys : List ℕ) → Perm xs ys → maximum xs ≡ maximum ys
maximum-Perm [] [] p = refl
maximum-Perm [] (y ∷ ys) p = absurd (omega (arith, length-Perm p))
maximum-Perm (x ∷ xs) [] p = absurd (omega (arith, length-Perm p))
maximum-Perm (x ∷ xs) (y ∷ ys) p =
    let (m, e) = maximum_total x xs in
    let (k, f) = maximum_total y ys in
    e ∙ ap ok (∥∥₁_elim p (ℕ_set m k) (λ d. ok-injective m k (sym e ∙ maximum-Permᴰ d ∙ f))) ∙ sym f
