-- ===== src/Common/Parse/Laws.antt =====
-- Reading back the decimal text of a number.
use Prim.Native.Nat.{ℕ, zero, suc, ◌+◌, ◌-◌, ◌*◌, ◌/◌, ◌%◌, ◌≤◌, ◌<◌}
use mathlib.Core.Path.{◌≡◌, refl, sym, ap, ◌∙◌}
use mathlib.Core.Logic.{inl, inr}
use mathlib.Core.Bool.{true}
use mathlib.Core.Option.{some}
use mathlib.Core.List.{[], ◌∷◌}
use native.Mathlib.Omega.{arith}
use fincart_assissment.Common.Tests.{ltb, Bool-cases, ltb→lt, ltb-false→le}
use fincart_assissment.Common.Text.{Str, is_space, trim_start}
use fincart_assissment.Common.Parse.{
  pos, is_digit, digits_from, parse_digits, parse_int, digits, decimal,
}

digits_from-digit :
    (m d : ℕ) (more : Str)
    → d < 10
    → digits_from m ((d + 48) ∷ more) ≡ digits_from (m * 10 + d) more
unfolding digits_from
digits_from-digit m d more h = rw (is_digit_of (d + 48) (omega arith) (omega arith), value m d) refl
  where
    is_digit_of : (c : ℕ) → 48 ≤ c → c ≤ 57 → is_digit c ≡ true
    is_digit_of c a b = ground arith

    value : (a b : ℕ) → a * 10 + (b + 48 - 48) ≡ a * 10 + b
    value a b = omega arith

digits_from-digits :
    (fuel n : ℕ) (more : Str) → n < fuel → digits_from 0 (digits fuel n more) ≡ digits_from n more
unfolding digits
digits_from-digits zero n more h = absurd (omega arith)
digits_from-digits (suc fuel) n more h = elim (Bool-cases (ltb n 10)) [
  | inl small ↦
      rw (digits, small)
        (digits_from-digit 0 (n % 10) more (omega arith)
          ∙ ap (λ k. digits_from k more) (omega (arith, ltb→lt n 10 small)))
  | inr large ↦
      rw (digits, large)
        (digits_from-digits fuel (n / 10) ((n % 10 + 48) ∷ more)
            (omega (arith, ltb-false→le n 10 large))
          ∙ digits_from-digit (n / 10) (n % 10) more (omega arith)
          ∙ ap (λ k. digits_from k more) (omega arith))
]

-- The first unit of a number's text is a digit.
digits-head :
    (fuel n : ℕ) (more : Str)
    → n < fuel
    → (c : ℕ) × (rest : Str) × (digits fuel n more ≡ c ∷ rest) × (48 ≤ c) × (c ≤ 57)
unfolding digits
digits-head zero n more h = absurd (omega arith)
digits-head (suc fuel) n more h = elim (Bool-cases (ltb n 10)) [
  | inl small ↦ (n % 10 + 48, more, rw (digits, small) refl, omega arith, omega arith)
  | inr large ↦
      rw (digits, large)
        (digits-head fuel (n / 10) ((n % 10 + 48) ∷ more) (omega (arith, ltb-false→le n 10 large)))
]

parse_int-digit :
    (c : ℕ) (rest : Str)
    → 48 ≤ c
    → c ≤ 57
    → parse_int (c ∷ rest) ≡ some (pos (digits_from 0 (c ∷ rest)))
unfolding parse_int trim_start is_space parse_digits
parse_int-digit c rest h k = ground arith

-- Reading the decimal text of a number gives the number back.
pub parse_int-decimal : (n : ℕ) → parse_int (decimal n) ≡ some (pos n)
unfolding decimal digits_from
parse_int-decimal n =
    let (c, rest, e, h, k) = digits-head (suc n) n [] (omega arith) in
    let value : digits_from 0 (c ∷ rest) ≡ n =
      ap (λ s. digits_from 0 s) (sym e) ∙ digits_from-digits (suc n) n [] (omega arith) in
    rw e (parse_int-digit c rest h k ∙ ap (λ m. some (pos m)) value)
