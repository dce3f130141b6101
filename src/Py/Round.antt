-- ===== src/Py/Round.antt =====
-- `round(x, k)` on a quotient: the nearest integer to n / d, a tie going to the even neighbour.
use native.Mathlib.Nat.{mul-div_cancel_left, add-mul-mod_self_left}
use ai_infra_demo.Base.{
  ℕ, ◌+◌, ◌*◌, ◌/◌, ◌%◌, ◌≤◌, ◌<◌, ◌≡◌, arith, ltb, ◌==◌, if◌then◌else◌, ◌||◌, ◌&&◌,
}

unfoldable pub round_div : ℕ → ℕ → ℕ
round_div n d =
    let q = n / d in
    let r = n % d in if ltb d (2 * r) || (2 * r == d && q % 2 == 1) then q + 1 else q

-- The result is at most half a unit away.
pub round_div-near :
    (n d : ℕ)
    → 0 < d
    → (2 * (d * round_div n d) ≤ 2 * n + d) × (2 * n ≤ 2 * (d * round_div n d) + d)
unfolding round_div
round_div-near n d h = grind arith

-- A multiple of the unit is not changed.
pub round_div_exact : (q d : ℕ) → 0 < d → round_div (d * q) d ≡ q
unfolding round_div
round_div_exact q d h = ground (arith, mul-div_cancel_left q {n = d} h, add-mul-mod_self_left 0 d q)

-- Rounding keeps the order of quotients with one denominator.
pub round_div_mono : (m n d : ℕ) → 0 < d → m ≤ n → round_div m d ≤ round_div n d
round_div_mono m n d h k = grind (arith, round_div-near m d, round_div-near n d)
