-- ===== src/Py/Slices.antt =====
-- `xs[:n]` for any integer n: a negative one leaves out the last -n elements.
use ai_infra_demo.Base.{suc, ◌-◌, ◌+◌, List, length, take}
use ai_infra_demo.Base.Int.{ℤ, pos, negsuc, pos_part, neg_part, sub_ℕ}

unfoldable pub slice_to {ℓ} : {A : Type ℓ} → ℤ → List A → List A
slice_to (pos n) xs = take n xs
slice_to (negsuc n) xs = take (length xs - suc n) xs

-- n - 1
abbrev pub minus_one : ℤ → ℤ
minus_one n = sub_ℕ (pos_part n) (neg_part n + 1)
