-- ===== src/Base/Lists.antt =====
-- Lists measured by the native numbers, under the library's names, and Python's slices.
use Prim.Native.Nat.{ℕ, zero, suc, ◌+◌, ◌<◌, min}
use mathlib.Core.Path.{◌≡◌, refl, ap, ◌∙◌}
use mathlib.Core.List.{List, [], ◌∷◌, ◌++◌, map}
use mathlib.Core.Option.{Option, none, some}
use mathlib.Core.List.{Perm, Permᴰ}
use mathlib.Core.List.Permᴰ.{nil, cons, swap, trans}
use mathlib.Core.Logic.{∥∥₁_elim}
use native.Mathlib.Nat.{ℕ_set}
use native.Mathlib.Omega.{arith}

module _ {ℓ} {A : Type ℓ} where
  abbrev pub length : List A → ℕ
  length [] = 0
  length (x ∷ xs) = suc (length xs)

  abbrev pub get_elem? : List A → ℕ → Option A
  get_elem? [] i = none
  get_elem? (x ∷ xs) zero = some x
  get_elem? (x ∷ xs) (suc i) = get_elem? xs i

  -- `xs[:n]` and `xs[n:]` for a non-negative n
  abbrev pub take : ℕ → List A → List A
  take zero xs = []
  take (suc n) [] = []
  take (suc n) (x ∷ xs) = x ∷ take n xs

  abbrev pub drop : ℕ → List A → List A
  drop zero xs = xs
  drop (suc n) [] = []
  drop (suc n) (x ∷ xs) = drop n xs

  -- A predicate by recursion computes to tuples.
  abbrev pub All {κ} : (A → Type κ) → List A → Type κ
  All P [] = Unit
  All P (x ∷ xs) = P x × All P xs

  pub length-append : (xs ys : List A) → length (xs ++ ys) ≡ length xs + length ys
  length-append [] ys = omega arith
  length-append (x ∷ xs) ys = omega (arith, length-append xs ys)

  pub length-take : (n : ℕ) (xs : List A) → length (take n xs) ≡ min n (length xs)
  length-take zero xs = omega arith
  length-take (suc n) [] = omega arith
  length-take (suc n) (x ∷ xs) = omega (arith, length-take n xs)

  pub take-append-drop : (n : ℕ) (xs : List A) → take n xs ++ drop n xs ≡ xs
  take-append-drop zero xs = refl
  take-append-drop (suc n) [] = refl
  take-append-drop (suc n) (x ∷ xs) = rw (take-append-drop n xs)

  pub drop-append_length : (xs ys : List A) → drop (length xs) (xs ++ ys) ≡ ys
  drop-append_length [] ys = refl
  drop-append_length (x ∷ xs) ys = drop-append_length xs ys

  -- An index below the length is found.
  pub get_elem?_lt : (xs : List A) (i : ℕ) → i < length xs → (x : A) × (get_elem? xs i ≡ some x)
  get_elem?_lt [] i h = absurd (omega arith)
  get_elem?_lt (x ∷ xs) zero h = (x, refl)
  get_elem?_lt (x ∷ xs) (suc i) h = get_elem?_lt xs i (omega arith)

pub length-map {ℓ κ} :
    {A : Type ℓ} {B : Type κ} (xs : List A) (f : A → B) → length (map f xs) ≡ length xs
length-map [] f = refl
length-map (x ∷ xs) f = ap suc (length-map xs f)

-- The numbers from `lo + 1` on, n of them.
abbrev pub count_from : ℕ → ℕ → List ℕ
count_from lo zero = []
count_from lo (suc n) = suc lo ∷ count_from (suc lo) n

pub count_from-suc : (lo n : ℕ) → count_from lo (suc n) ≡ count_from lo n ++ (lo + suc n) ∷ []
count_from-suc lo zero = ap (λ k. k ∷ []) (omega arith)
count_from-suc lo (suc n) =
    ap (◌∷◌ (suc lo))
      (count_from-suc (suc lo) n ∙ ap (λ k. count_from (suc lo) n ++ k ∷ []) (omega arith))

pub count_from_next : (n : ℕ) → count_from 0 (suc n) ≡ count_from 0 n ++ suc n ∷ []
count_from_next n = count_from-suc 0 n ∙ ap (λ k. count_from 0 n ++ k ∷ []) (omega arith)

pub length-count_from : (lo n : ℕ) → length (count_from lo n) ≡ n
length-count_from lo zero = refl
length-count_from lo (suc n) = ap suc (length-count_from (suc lo) n)

length-Permᴰ {ℓ} : {A : Type ℓ} {xs ys : List A} → Permᴰ xs ys → length xs ≡ length ys
length-Permᴰ nil = refl
length-Permᴰ (cons e p) = ap suc (length-Permᴰ p)
length-Permᴰ (swap e f) = refl
length-Permᴰ (trans p q) = length-Permᴰ p ∙ length-Permᴰ q

-- Permuted lists have one length.
pub length-Perm {ℓ} : {A : Type ℓ} {xs ys : List A} → Perm xs ys → length xs ≡ length ys
length-Perm {xs} {ys} p = ∥∥₁_elim p (ℕ_set (length xs) (length ys)) length-Permᴰ
