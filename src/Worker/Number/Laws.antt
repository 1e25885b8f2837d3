-- ===== src/Worker/Number/Laws.antt =====
-- The order of the numbers of the retry policy, and the operations on it.
use fincart_assissment.Common.{ℕ, ◌+◌, ◌*◌, ◌/◌, ◌≤◌, ◌<◌, arith}
use native.Mathlib.Nat.{
  mul-pos, le_refl, mul-le-mul_right, le_of_mul-le-mul_right, le-div_iff_mul-le,
}
use fincart_assissment.Worker.Number.{Num, IsNum, add, mul, over, ◌⊑◌, round}

-- Rounding keeps the order.
pub round_mono : (a b : Num) → IsNum a → IsNum b → a ⊑ b → round a ≤ round b
unfolding round
round_mono a b ha hb h =
    let q = (2 * a.top + a.bottom) / (2 * a.bottom) in
    let below : q * (2 * a.bottom) ≤ 2 * a.top + a.bottom =
      (le-div_iff_mul-le (omega arith)).0 (le_refl _) in
    (le-div_iff_mul-le (omega arith)).1 (
      le_of_mul-le-mul_right {k = a.bottom}
        (let scaled : (q * (2 * a.bottom)) * b.bottom ≤ (2 * a.top + a.bottom) * b.bottom =
            mul-le-mul_right b.bottom below in
          omega arith)
        ha)

-- Adding makes a number no smaller, and a factor of at most 1 makes it no larger.
pub add-le : (a b : Num) → a ⊑ add a b
unfolding add
add-le a b = omega arith

pub add-le_right : (a b : Num) → b ⊑ add a b
unfolding add
add-le_right a b = omega arith

pub add_mono : (a b c : Num) → b ⊑ c → add a b ⊑ add a c
unfolding add
add_mono a b c h = let scaled = mul-le-mul_right (a.bottom * a.bottom) h in omega arith

pub mul-le_self : (a r : Num) → r.top ≤ r.bottom → mul a r ⊑ a
unfolding mul
mul-le_self a r h = let scaled = mul-le-mul_right (a.top * a.bottom) h in omega arith

-- The operations do not divide by 0.
pub add-IsNum : (a b : Num) → IsNum a → IsNum b → IsNum (add a b)
unfolding add
add-IsNum a b h k = mul-pos h k

pub mul-IsNum : (a b : Num) → IsNum a → IsNum b → IsNum (mul a b)
unfolding mul
mul-IsNum a b h k = mul-pos h k

pub over-IsNum : (a : Num) (n : ℕ) → IsNum a → 0 < n → IsNum (over a n)
unfolding over
over-IsNum a n h k = mul-pos h k
