-- ===== src/Worker/Number/Double.antt =====
-- JavaScript's numbers: a sign and a size, Infinity, -Infinity and NaN. The rounding of a result to 53
-- binary digits is left out, but not its overflow: a size that would be rounded past the greatest
-- double is Infinity. The two zeros are told apart only by their sign.
pub mod Laws
use fincart_assissment.Common.{
  ℕ, zero, suc, ◌+◌, ◌-◌, ◌*◌, ◌/◌, ◌^◌, Bool, true, false, not, ◌&&◌, ltb, ◌==◌, if◌then◌else◌,
}
use fincart_assissment.Worker.Number.{Num, of_ℕ, add, mul, over, le_num, round}

pub data Number : Type 0 where
  nan : Number
  infinite : (negative : Bool) → Number
  finite : (negative : Bool) → Num → Number

-- Halfway from the greatest double to the next power of two: from here on a size is Infinity.
unfoldable pub overflow_from : ℕ
overflow_from = 2 ^ 1024 - 2 ^ 970

unfoldable pub fits : Num → Bool
fits a = ltb a.top (overflow_from * a.bottom)

unfoldable pub fit : Bool → Num → Number
fit negative a = if fits a then finite negative a else infinite negative

abbrev pub whole : ℕ → Number
whole n = finite false (of_ℕ n)

abbrev pub differ : Bool → Bool → Bool
differ true b = not b
differ false b = b

-- `a - b`, where it is not negative.
unfoldable pub minus : Num → Num → Num
minus a b = record { top = a.top * b.bottom - b.top * a.bottom; bottom = a.bottom * b.bottom }

-- `a + b`.
unfoldable pub plus : Number → Number → Number
unfolding fit add minus le_num
plus nan y = nan
plus (infinite s) nan = nan
plus (infinite s) (infinite t) = if differ s t then nan else infinite s
plus (infinite s) (finite t b) = infinite s
plus (finite s a) nan = nan
plus (finite s a) (infinite t) = infinite t
plus (finite s a) (finite t b) =
    if differ s t
    then (if le_num b a then finite s (minus a b) else finite t (minus b a))
    else fit s (add a b)

-- `a * b`.
unfoldable pub times : Number → Number → Number
unfolding fit mul
times nan y = nan
times (infinite s) nan = nan
times (infinite s) (infinite t) = infinite (differ s t)
times (infinite s) (finite t b) = if b.top == 0 then nan else infinite (differ s t)
times (finite s a) nan = nan
times (finite s a) (infinite t) = if a.top == 0 then nan else infinite (differ s t)
times (finite s a) (finite t b) = fit (differ s t) (mul a b)

-- `a / 100`.
unfoldable pub percent : Number → Number
unfolding over
percent nan = nan
percent (infinite s) = infinite s
percent (finite s a) = finite s (over a 100)

-- `Math.pow` at a whole exponent, which is 1 at 0, whatever the base is.
unfoldable pub power : Number → ℕ → Number
unfolding of_ℕ times
power x zero = whole 1
power x (suc n) = times (power x n) x

-- `a <= b`, of numbers that are not NaN.
unfoldable pub at_most : Number → Number → Bool
unfolding le_num
at_most nan y = false
at_most (infinite true) y = true
at_most (infinite false) (infinite s) = not s
at_most (infinite false) nan = false
at_most (infinite false) (finite t b) = false
at_most (finite s a) nan = false
at_most (finite s a) (infinite t) = not t
at_most (finite true a) (finite true b) = le_num b a
at_most (finite true a) (finite false b) = true
at_most (finite false a) (finite true b) = a.top == 0 && b.top == 0
at_most (finite false a) (finite false b) = le_num a b

-- `Math.min` and `Math.max`, which are NaN if one of the numbers is.
unfoldable pub minimum : Number → Number → Number
unfolding at_most
minimum nan y = nan
minimum (infinite s) nan = nan
minimum (finite s a) nan = nan
minimum x y = if at_most x y then x else y

unfoldable pub maximum : Number → Number → Number
unfolding at_most
maximum nan y = nan
maximum (infinite s) nan = nan
maximum (finite s a) nan = nan
maximum x y = if at_most y x then x else y

-- `Math.round`: the nearest whole number, a half towards Infinity.
unfoldable pub rounded : Number → Number
unfolding round of_ℕ
rounded nan = nan
rounded (infinite s) = infinite s
rounded (finite false a) = whole (round a)
rounded (finite true a) = finite true (of_ℕ ((2 * a.top + a.bottom - 1) / (2 * a.bottom)))
