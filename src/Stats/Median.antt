-- ===== src/Stats/Median.antt =====
-- The median is in the middle of the sample.
use ai_infra_demo.Base.{
  ℕ, zero, suc, ◌+◌, ◌-◌, ◌*◌, ◌/◌, ◌%◌, ◌≤◌, ◌<◌, ◌≡◌, ◌≢◌, refl, Bool, true, some, List, [], ◌∷◌,
  length, get_elem?, arith, leb, ◌==◌, ==_iff, Bool-cases, inl, inr,
}
use ai_infra_demo.Py.Result.{ok}
use ai_infra_demo.Stats.{sorted, item, double_middle, double_median}
use ai_infra_demo.Stats.Sorted.{SortedFrom, sorted-SortedFrom, count_if, length-sorted}
use ai_infra_demo.Stats.Percentile.{item_lt, item-eq-ok, item-sorted_below, item-sorted_above}

count_if_imp :
    (p q : ℕ → Bool) (xs : List ℕ)
    → ((x : ℕ) → p x ≡ true → q x ≡ true)
    → count_if p xs ≤ count_if q xs
count_if_imp p q [] h = omega arith
count_if_imp p q (x ∷ xs) h = ground (arith, count_if_imp p q xs h, h x)

SortedFrom-next :
    (lo : ℕ) (xs : List ℕ) (i a b : ℕ)
    → SortedFrom lo xs
    → get_elem? xs i ≡ some a
    → get_elem? xs (suc i) ≡ some b
    → a ≤ b
SortedFrom-next lo [] i a b s e f = cc
SortedFrom-next lo (x ∷ []) zero a b s e f = cc
SortedFrom-next lo (x ∷ y ∷ ys) zero a b s e f = ground arith
SortedFrom-next lo (x ∷ xs) (suc i) a b s e f = SortedFrom-next x xs i a b s.1 e f

-- At least half of the values are at most the median, and half are at least it.
abbrev pub IsMedian : ℕ → List ℕ → Type 0
IsMedian m xs =
    (length xs ≤ 2 * count_if (λ x. leb (2 * x) m) xs)
    × (length xs ≤ 2 * count_if (λ x. leb m (2 * x)) xs)

odd-IsMedian :
    (xs : List ℕ) (v : ℕ)
    → length xs % 2 ≡ 1
    → item (sorted xs) (length xs / 2) ≡ ok v
    → IsMedian (2 * v) xs
odd-IsMedian xs v odd e = (
  omega (
    arith,
    item-sorted_below xs (length xs / 2) v e,
    count_if_imp (λ x. leb x v) (λ x. leb (2 * x) (2 * v)) xs (λ x h. ground arith),
  ),
  omega (
    arith,
    item-sorted_above xs (length xs / 2) v e,
    count_if_imp (λ x. leb v x) (λ x. leb (2 * v) (2 * x)) xs (λ x h. ground arith),
  ),
)

even-IsMedian :
    (xs : List ℕ) (k a b : ℕ)
    → length xs ≡ 2 * suc k
    → item (sorted xs) k ≡ ok a
    → item (sorted xs) (suc k) ≡ ok b
    → IsMedian (a + b) xs
even-IsMedian xs k a b even e f =
    let le : a ≤ b =
      SortedFrom-next 0 (sorted xs) k a b (sorted-SortedFrom xs) (item-eq-ok (sorted xs) k a e)
        (item-eq-ok (sorted xs) (suc k) b f) in
    (
      omega (
        arith,
        item-sorted_below xs k a e,
        count_if_imp (λ x. leb x a) (λ x. leb (2 * x) (a + b)) xs (λ x h. ground arith),
      ),
      omega (
        arith,
        item-sorted_above xs (suc k) b f,
        count_if_imp (λ x. leb b x) (λ x. leb (a + b) (2 * x)) xs (λ x h. ground arith),
      ),
    )

double_middle-IsMedian :
    (xs : List ℕ)
    → 0 < length xs
    → (m : ℕ) × (double_middle (sorted xs) (length xs) ≡ ok m) × IsMedian m xs
unfolding double_middle
double_middle-IsMedian xs h =
    let n = length xs in
    let (b, f) = item_lt (sorted xs) (n / 2) (omega (arith, length-sorted xs)) in
    elim (Bool-cases (n % 2 == 1)) [
      | inl odd ↦ (2 * b, rw (odd, f), odd-IsMedian xs b ((==_iff (n % 2) 1).0 odd) f)
      | inr even ↦
          let rest : n ≡ 2 * suc (n / 2 - 1) = ground arith in
          let half : n / 2 ≡ suc (n / 2 - 1) = omega arith in
          let (a, e) = item_lt (sorted xs) (n / 2 - 1) (omega (arith, length-sorted xs)) in
          (a + b, rw (even, e, f), even-IsMedian xs (n / 2 - 1) a b rest e (rw half at f))
    ]

-- A sample that is not empty has a median, with half of the values on either side.
pub double_median-IsMedian :
    (xs : List ℕ) → xs ≢ [] → (m : ℕ) × (double_median xs ≡ ok m) × IsMedian m xs
unfolding double_median
double_median-IsMedian [] h = absurd (h refl)
double_median-IsMedian (x ∷ xs) h = double_middle-IsMedian (x ∷ xs) (omega arith)
