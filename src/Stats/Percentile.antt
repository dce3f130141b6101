-- ===== src/Stats/Percentile.antt =====
-- What the printed percentiles say of the sample.
use mathlib.Core.Path.{subst}
use ai_infra_demo.Base.{
  ℕ, ◌+◌, ◌*◌, ◌≤◌, ◌<◌, ◌≡◌, ◌≢◌, refl, Bool, some, List, [], ◌∷◌, length, get_elem?, get_elem?_lt,
  arith, leb,
}
use ai_infra_demo.Py.Result.{ok}
use ai_infra_demo.Stats.{sorted, item, p95_index, p95, larger, maximum}
use ai_infra_demo.Stats.Sorted.{
  sorted-SortedFrom, count_if, count_if-sorted, length-sorted, count_if-le_at, count_if-ge_at,
}

count_if-le-length : (p : ℕ → Bool) (xs : List ℕ) → count_if p xs ≤ length xs
count_if-le-length p [] = omega arith
count_if-le-length p (x ∷ xs) = ground (arith, count_if-le-length p xs)

pub item-eq-ok : (xs : List ℕ) (i v : ℕ) → item xs i ≡ ok v → get_elem? xs i ≡ some v
item-eq-ok xs i v e = ground arith

pub item_lt : (xs : List ℕ) (i : ℕ) → i < length xs → (v : ℕ) × (item xs i ≡ ok v)
item_lt xs i h = let (v, e) = get_elem?_lt xs i h in (v, rw e)

-- A sample that is not empty has a 95th percentile.
pub p95_total : (xs : List ℕ) → xs ≢ [] → (v : ℕ) × (p95 xs ≡ ok v)
unfolding p95
p95_total [] h = absurd (h refl)
p95_total (x ∷ xs) h =
    item_lt (sorted (x ∷ xs)) (p95_index (length (x ∷ xs))) (omega (arith, length-sorted (x ∷ xs)))

module _ (xs : List ℕ) (i v : ℕ) (at : item (sorted xs) i ≡ ok v) where
  at_index : get_elem? (sorted xs) i ≡ some v
  at_index = item-eq-ok (sorted xs) i v at

  pub item-sorted_below : i < count_if (λ x. leb x v) xs
  item-sorted_below = omega (
    arith,
    count_if-le_at 0 (sorted xs) i v (sorted-SortedFrom xs) at_index,
    count_if-sorted (λ x. leb x v) xs,
  )

  pub item-sorted_above : length xs ≤ i + count_if (λ x. leb v x) xs
  item-sorted_above = omega (
    arith,
    count_if-ge_at 0 (sorted xs) i v (sorted-SortedFrom xs) at_index,
    count_if-sorted (λ x. leb v x) xs,
    length-sorted xs,
  )

-- More than 95 of 100 values are at most the 95th percentile, and at least 5 of 100 are at least it.
pub p95_coverage :
    (xs : List ℕ) (v : ℕ)
    → p95 xs ≡ ok v
    → (95 * length xs < 100 * count_if (λ x. leb x v) xs)
      × (5 * length xs ≤ 100 * count_if (λ x. leb v x) xs)
unfolding p95
p95_coverage xs v e = omega (
  arith,
  item-sorted_below xs (p95_index (length xs)) v e,
  item-sorted_above xs (p95_index (length xs)) v e,
)

pub maximum_total : (x : ℕ) (xs : List ℕ) → (m : ℕ) × (maximum (x ∷ xs) ≡ ok m)
unfolding maximum
maximum_total x [] = (x, refl)
maximum_total x (y ∷ ys) = let (m, e) = maximum_total y ys in (larger x m, rw e)

-- No value is above m, and one is m or more.
abbrev IsMaximum : ℕ → List ℕ → Type 0
IsMaximum m xs = (count_if (λ y. leb y m) xs ≡ length xs) × (0 < count_if (λ y. leb m y) xs)

count_if_mono :
    (m n : ℕ) (xs : List ℕ)
    → m ≤ n
    → count_if (λ y. leb y m) xs ≡ length xs
    → count_if (λ y. leb y n) xs ≡ length xs
count_if_mono m n [] h e = refl
count_if_mono m n (x ∷ xs) h e =
    ground (arith, count_if_mono m n xs h, count_if-le-length (λ y. leb y m) xs)

larger-IsMaximum : (x n : ℕ) (xs : List ℕ) → IsMaximum n xs → IsMaximum (larger x n) (x ∷ xs)
larger-IsMaximum x n xs (all, one) = ground (arith, count_if_mono n x xs)

maximum-IsMaximum : (x : ℕ) (xs : List ℕ) (m : ℕ) → maximum (x ∷ xs) ≡ ok m → IsMaximum m (x ∷ xs)
unfolding maximum
maximum-IsMaximum x [] m e = ground arith
maximum-IsMaximum x (y ∷ ys) m e =
    let (n, f) = maximum_total y ys in
    subst (λ k. IsMaximum k (x ∷ y ∷ ys)) (cc)
      (larger-IsMaximum x n (y ∷ ys) (maximum-IsMaximum y ys n f))

none_above :
    (m v : ℕ) (xs : List ℕ)
    → m < v
    → count_if (λ y. leb y m) xs ≡ length xs
    → count_if (λ y. leb v y) xs ≡ 0
none_above m v [] h e = refl
none_above m v (x ∷ xs) h e =
    ground (arith, none_above m v xs h, count_if-le-length (λ y. leb y m) xs)

IsMaximum-unique : (m n : ℕ) (xs : List ℕ) → IsMaximum m xs → IsMaximum n xs → m ≡ n
IsMaximum-unique m n xs h k = ground (arith, none_above m n xs, none_above n m xs)

-- Of at most twenty values the 95th percentile is the largest.
pub p95-eq-maximum : (xs : List ℕ) → xs ≢ [] → length xs ≤ 20 → p95 xs ≡ maximum xs
unfolding p95
p95-eq-maximum [] some_one few = absurd (some_one refl)
p95-eq-maximum (x ∷ xs) some_one few =
    let i : ℕ = p95_index (length (x ∷ xs)) in
    let (v, e) = p95_total (x ∷ xs) some_one in
    let (m, f) = maximum_total x xs in
    let top : IsMaximum v (x ∷ xs) = (
      omega (arith, item-sorted_below (x ∷ xs) i v e, count_if-le-length (λ y. leb y v) (x ∷ xs)),
      omega (arith, item-sorted_above (x ∷ xs) i v e),
    ) in
    let same : v ≡ m = IsMaximum-unique v m (x ∷ xs) top (maximum-IsMaximum x xs m f) in cc
