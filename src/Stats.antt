-- ===== src/Stats.antt =====
-- The statistics that the scripts print: `sorted(xs)`, `statistics.median(xs)`,
-- `sorted(xs)[int(len(xs) * 0.95)]` and `max(xs)`, over figures in whole units.
-- `int(n * 0.95)` is taken as the whole part of 95 n / 100: the double nearest to 0.95 times n
-- rounds to the same whole part for every length that a list can have.
pub mod Sorted
pub mod Percentile
pub mod Median
pub mod Order
use ai_infra_demo.Base.{
  ℕ, suc, ◌+◌, ◌-◌, ◌*◌, ◌/◌, ◌%◌, Bool, true, false, Option, none, some, List, [], ◌∷◌, length,
  get_elem?, leb, ◌==◌, if◌then◌else◌,
}
use ai_infra_demo.Py.Result.{
  Result, ok, raised, ◌>>=◌, or_raise, index_error, value_error, statistics_error,
}

-- `sorted(xs, key=…)` where `le` compares the keys: equal ones keep their order.
module _ {ℓ} {A : Type ℓ} (le : A → A → Bool) where
  unfoldable pub insert_sorted : A → List A → List A
  insert_sorted x [] = x ∷ []
  insert_sorted x (y ∷ ys) = if le x y then x ∷ y ∷ ys else y ∷ insert_sorted x ys

  unfoldable pub sort_by : List A → List A
  unfolding insert_sorted
  sort_by [] = []
  sort_by (x ∷ xs) = insert_sorted x (sort_by xs)

abbrev pub sorted : List ℕ → List ℕ
sorted = sort_by leb

-- `xs[i]`
abbrev pub item : List ℕ → ℕ → Result ℕ
item xs i = or_raise index_error (get_elem? xs i)

-- Twice the middle of the n values of an ascending list.
unfoldable pub double_middle : List ℕ → ℕ → Result ℕ
double_middle s n =
    if n % 2 == 1
    then (item s (n / 2) >>= λ m. ok (2 * m))
    else (item s (n / 2 - 1) >>= λ a. item s (n / 2) >>= λ b. ok (a + b))

-- Twice the median: the middle value twice, or the sum of the two in the middle.
unfoldable pub double_median : List ℕ → Result ℕ
unfolding double_middle
double_median [] = raised statistics_error
double_median (x ∷ xs) = double_middle (sorted (x ∷ xs)) (length (x ∷ xs))

abbrev pub p95_index : ℕ → ℕ
p95_index n = n * 95 / 100

unfoldable pub p95 : List ℕ → Result ℕ
p95 xs = item (sorted xs) (p95_index (length xs))

abbrev pub larger : ℕ → ℕ → ℕ
larger a b = if leb a b then b else a

-- `max(xs)`
unfoldable pub maximum : List ℕ → Result ℕ
maximum [] = raised value_error
maximum (x ∷ []) = ok x
maximum (x ∷ y ∷ ys) = maximum (y ∷ ys) >>= λ m. ok (larger x m)
