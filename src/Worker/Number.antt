-- ===== src/Worker/Number.antt =====
-- The sizes of the numbers that gateway-worker/src/queue/retry-policy.ts works on. A finite JavaScript
-- number is a fraction, so a size is a nonnegative fraction and the operations on sizes are exact: the
-- rounding of a double to 53 binary digits is left out. The child Double has the numbers themselves.
pub mod Laws
pub mod Double
use fincart_assissment.Common.{
  ℕ, zero, suc, ◌+◌, ◌*◌, ◌/◌, ◌≤◌, ◌<◌, ◌≡◌, Bool, leb, if◌then◌else◌, arith,
}

pub record Num : Type 0 where
  pub top : ℕ
  pub bottom : ℕ

abbrev pub IsNum : Num → Type 0
IsNum x = 0 < x.bottom

unfoldable pub of_ℕ : ℕ → Num
of_ℕ n = record { top = n; bottom = 1 }

-- `a + b`, `a * b` and `a / n`.
unfoldable pub add : Num → Num → Num
add a b = record { top = a.top * b.bottom + b.top * a.bottom; bottom = a.bottom * b.bottom }

unfoldable pub mul : Num → Num → Num
mul a b = record { top = a.top * b.top; bottom = a.bottom * b.bottom }

unfoldable pub over : Num → ℕ → Num
over a n = record { top = a.top; bottom = a.bottom * n }

-- `Math.pow` at a whole exponent.
unfoldable pub pow : Num → ℕ → Num
unfolding of_ℕ mul
pow a zero = of_ℕ 1
pow a (suc n) = mul (pow a n) a

infix 30 ◌⊑◌
abbrev pub ◌⊑◌ : Num → Num → Type 0
◌⊑◌ a b = a.top * b.bottom ≤ b.top * a.bottom

unfoldable pub le_num : Num → Num → Bool
le_num a b = leb (a.top * b.bottom) (b.top * a.bottom)

-- `Math.round`: the nearest whole number, a half upwards.
unfoldable pub round : Num → ℕ
round a = (2 * a.top + a.bottom) / (2 * a.bottom)
