-- ===== src/Common/Parse.antt =====
-- `Number.parseInt(text, 10)`: white space, a sign, and the digits up to the first other character.
pub mod Laws
use Prim.Native.Nat.{ℕ, zero, suc, ◌+◌, ◌-◌, ◌*◌, ◌/◌, ◌%◌, ◌^◌}
use mathlib.Core.Bool.{Bool, true, false, ◌&&◌}
use mathlib.Core.Option.{Option, none, some}
use mathlib.Core.List.{[], ◌∷◌}
use fincart_assissment.Common.Tests.{ltb, leb, ◌==◌, if◌then◌else◌}
use fincart_assissment.Common.Text.{Str, trim_start}

-- `negsuc n` is -(n + 1).
pub data ℤ : Type 0 where
  pos : ℕ → ℤ
  negsuc : ℕ → ℤ

abbrev pub is_digit : ℕ → Bool
is_digit c = leb b'0' c && leb c b'9'

-- The value of the digits at the start, after those with the value `n`.
unfoldable pub digits_from : ℕ → Str → ℕ
digits_from n [] = n
digits_from n (c ∷ s) =
    let more = digits_from (n * 10 + (c - 48)) s in if is_digit c then more else n

-- From here on a number rounds to `Infinity`.
unfoldable pub infinity : ℕ
infinity = 2 ^ 1024 - 2 ^ 970

unfoldable pub parse_digits : Str → Option ℕ
parse_digits [] = none
parse_digits (c ∷ s) = if is_digit c then some (digits_from 0 (c ∷ s)) else none

abbrev negative : Option ℕ → Option ℤ
negative none = none
negative (some zero) = some (pos zero)
negative (some (suc n)) = some (negsuc n)

abbrev positive : Option ℕ → Option ℤ
positive none = none
positive (some n) = some (pos n)

abbrev signed : Str → Option ℤ
signed [] = none
signed (c ∷ s) =
    if c == b'-'
    then negative (parse_digits s)
    else if c == b'+'
    then positive (parse_digits s)
    else positive (parse_digits (c ∷ s))

-- `none` is `NaN`.
unfoldable pub parse_int : Str → Option ℤ
unfolding trim_start parse_digits digits_from
parse_int text = signed (trim_start text)

-- The decimal digits of a number, before the digits `more`; a number is less than the fuel.
unfoldable pub digits : ℕ → ℕ → Str → Str
digits zero n more = more
digits (suc fuel) n more = elim (ltb n 10) [
  | true ↦ (n % 10 + 48) ∷ more
  | false ↦ digits fuel (n / 10) ((n % 10 + 48) ∷ more)
]

-- `String(n)`.
unfoldable pub decimal : ℕ → Str
decimal n = digits (suc n) n []
