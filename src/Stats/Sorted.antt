-- ===== src/Stats/Sorted.antt =====
-- `sorted` gives an ascending list of the same values.
use mathlib.Core.List.{Perm}
use mathlib.Core.List.Perm
use ai_infra_demo.Base.{
  Bool-cases, inl, inr, ℕ, zero, suc, ◌+◌, ◌≤◌, ◌<◌, ◌≡◌, refl, Bool, some, List, [], ◌∷◌, length,
  get_elem?, arith, leb, if◌then◌else◌,
}
use ai_infra_demo.Stats.{insert_sorted, sort_by, sorted}

-- Sorting keeps every element.
module _ {ℓ} {A : Type ℓ} (le : A → A → Bool) where
  insert_sorted-perm : (x : A) (ys : List A) → Perm (insert_sorted le x ys) (x ∷ ys)
  unfolding insert_sorted
  insert_sorted-perm x [] = Perm.rfl
  insert_sorted-perm x (y ∷ ys) = elim (Bool-cases (le x y)) [
    | inl first ↦ rw (first, insert_sorted) Perm.rfl
    | inr later ↦
        rw (later, insert_sorted)
          (Perm.trans (Perm.cons y (insert_sorted-perm x ys)) (Perm.swap x y ys))
  ]

  pub sort_by-perm : (xs : List A) → Perm (sort_by le xs) xs
  unfolding sort_by
  sort_by-perm [] = Perm.rfl
  sort_by-perm (x ∷ xs) =
      Perm.trans (insert_sorted-perm x (sort_by le xs)) (Perm.cons x (sort_by-perm xs))

-- Ascending values, none below `lo`.
abbrev pub SortedFrom : ℕ → List ℕ → Type 0
SortedFrom lo [] = Unit
SortedFrom lo (x ∷ xs) = (lo ≤ x) × SortedFrom x xs

-- How many values satisfy a test.
abbrev pub count_if : (ℕ → Bool) → List ℕ → ℕ
count_if p [] = 0
count_if p (x ∷ xs) = if p x then suc (count_if p xs) else count_if p xs

insert_sorted-SortedFrom :
    (x lo : ℕ) (ys : List ℕ) → lo ≤ x → SortedFrom lo ys → SortedFrom lo (insert_sorted leb x ys)
unfolding insert_sorted
insert_sorted-SortedFrom x lo [] h s = (h, tt)
insert_sorted-SortedFrom x lo (y ∷ ys) h s = ground (arith, insert_sorted-SortedFrom x y ys)

pub sorted-SortedFrom : (xs : List ℕ) → SortedFrom 0 (sorted xs)
unfolding sort_by
sorted-SortedFrom [] = tt
sorted-SortedFrom (x ∷ xs) =
    insert_sorted-SortedFrom x 0 (sorted xs) (omega arith) (sorted-SortedFrom xs)

count_if-insert_sorted :
    (p : ℕ → Bool) (x : ℕ) (ys : List ℕ) → count_if p (insert_sorted leb x ys) ≡ count_if p (x ∷ ys)
unfolding insert_sorted
count_if-insert_sorted p x [] = refl
count_if-insert_sorted p x (y ∷ ys) = ground (arith, count_if-insert_sorted p x ys)

-- Every test is passed by as many values as before.
pub count_if-sorted : (p : ℕ → Bool) (xs : List ℕ) → count_if p (sorted xs) ≡ count_if p xs
unfolding sort_by
count_if-sorted p [] = refl
count_if-sorted p (x ∷ xs) =
    ground (arith, count_if-insert_sorted p x (sorted xs), count_if-sorted p xs)

length-insert_sorted : (x : ℕ) (ys : List ℕ) → length (insert_sorted leb x ys) ≡ suc (length ys)
unfolding insert_sorted
length-insert_sorted x [] = refl
length-insert_sorted x (y ∷ ys) = ground (arith, length-insert_sorted x ys)

pub length-sorted : (xs : List ℕ) → length (sorted xs) ≡ length xs
unfolding sort_by
length-sorted [] = refl
length-sorted (x ∷ xs) = omega (arith, length-insert_sorted x (sorted xs), length-sorted xs)

-- The value at an index of an ascending list is not below the first.
SortedFrom-get_elem? :
    (lo : ℕ) (xs : List ℕ) (i v : ℕ) → SortedFrom lo xs → get_elem? xs i ≡ some v → lo ≤ v
SortedFrom-get_elem? lo [] i v s e = cc
SortedFrom-get_elem? lo (x ∷ xs) zero v s e = ground arith
SortedFrom-get_elem? lo (x ∷ xs) (suc i) v s e = omega (arith, SortedFrom-get_elem? x xs i v s.1 e)

-- Of an ascending list more than i values are at most that at index i.
pub count_if-le_at :
    (lo : ℕ) (xs : List ℕ) (i v : ℕ)
    → SortedFrom lo xs
    → get_elem? xs i ≡ some v
    → i < count_if (λ x. leb x v) xs
count_if-le_at lo [] i v s e = cc
count_if-le_at lo (x ∷ xs) zero v s e = ground arith
count_if-le_at lo (x ∷ xs) (suc i) v s e =
    ground (arith, count_if-le_at x xs i v s.1 e, SortedFrom-get_elem? x xs i v s.1 e)

count_if-ge_all :
    (lo : ℕ) (xs : List ℕ) (v : ℕ)
    → SortedFrom lo xs
    → v ≤ lo
    → count_if (λ x. leb v x) xs ≡ length xs
count_if-ge_all lo [] v s h = refl
count_if-ge_all lo (x ∷ xs) v s h = ground (arith, count_if-ge_all x xs v s.1)

-- All values from index i on are at least that at index i.
pub count_if-ge_at :
    (lo : ℕ) (xs : List ℕ) (i v : ℕ)
    → SortedFrom lo xs
    → get_elem? xs i ≡ some v
    → length xs ≤ i + count_if (λ x. leb v x) xs
count_if-ge_at lo [] i v s e = cc
count_if-ge_at lo (x ∷ xs) zero v s e = ground (arith, count_if-ge_all x xs v s.1)
count_if-ge_at lo (x ∷ xs) (suc i) v s e = ground (arith, count_if-ge_at x xs i v s.1 e)
