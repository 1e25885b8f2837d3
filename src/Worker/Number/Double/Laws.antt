-- ===== src/Worker/Number/Double/Laws.antt =====
-- JavaScript's numbers where nothing overflows: the exact ones.
use fincart_assissment.Common.{
  ℕ, zero, suc, ◌*◌, ◌≤◌, ◌<◌, ◌≡◌, refl, ap, ◌∙◌, Bool, true, false, ltb, Bool-cases, inl, inr,
  arith,
}
use native.Mathlib.Nat.{lt_of_mul-lt-mul_right, mul-lt-mul_of_pos_right}
use fincart_assissment.Worker.Number.{Num, IsNum, of_ℕ, add, mul, pow, le_num, ◌⊑◌}
use fincart_assissment.Worker.Number.Double.{
  Number, nan, infinite, finite, overflow_from, fits, fit, whole, plus, times, power, at_most,
  minimum, maximum,
}

-- The size is that of a double.
abbrev pub Fits : Num → Type 0
Fits a = a.top < overflow_from * a.bottom

pub fit-exact : (negative : Bool) (a : Num) → Fits a → fit negative a ≡ finite negative a
unfolding fit fits
fit-exact negative a h =
    let f : ltb a.top (overflow_from * a.bottom) ≡ true = ground arith in rw f refl

-- What is no greater than a number that fits does so too.
below : (limit a b c d : ℕ) → 0 < d → 0 < b → a * d ≤ c * b → c < limit * d → a < limit * b
below limit a b c d hd hb le lt =
    lt_of_mul-lt-mul_right d
      (let scaled : c * b < (limit * d) * b = mul-lt-mul_of_pos_right lt hb in omega arith)

pub Fits-below : (a b : Num) → IsNum a → IsNum b → a ⊑ b → Fits b → Fits a
Fits-below a b ha hb le h = below overflow_from a.top a.bottom b.top b.bottom hb ha le h

pub times-exact :
    (a b : Num) → Fits (mul a b) → times (finite false a) (finite false b) ≡ finite false (mul a b)
unfolding times
times-exact a b h = fit-exact false (mul a b) h

pub plus-exact :
    (a b : Num) → Fits (add a b) → plus (finite false a) (finite false b) ≡ finite false (add a b)
unfolding plus
plus-exact a b h = fit-exact false (add a b) h

pub power-exact :
    (a : Num) (n : ℕ)
    → ((k : ℕ) → k ≤ n → Fits (pow a k))
    → power (finite false a) n ≡ finite false (pow a n)
unfolding power pow
power-exact a zero h = refl
power-exact a (suc n) h =
    ap (λ x. times x (finite false a)) (power-exact a n (λ k le. h k (omega arith)))
    ∙ times-exact (pow a n) a (h (suc n) (omega arith))

-- A number whose size, if it has one, is a fraction.
abbrev pub IsNumber : Number → Type 0
IsNumber nan = ⊥
IsNumber (infinite s) = Unit
IsNumber (finite s a) = IsNum a

-- A number between 0 and 1.
pub record IsShare (x : Number) : Type 0 where
  pub size : Num
  pub same : x ≡ finite false size
  pub number : IsNum size
  pub at_most_one : size.top ≤ size.bottom

-- A number that is put between 0 and 1.
pub clamped-IsShare : (x : Number) → IsNumber x → IsShare (minimum (whole 1) (maximum (whole 0) x))
unfolding minimum maximum at_most le_num of_ℕ
clamped-IsShare nan h = absurd h
clamped-IsShare (infinite true) h = record {
  size = of_ℕ 0;
  same = refl;
  number = omega arith;
  at_most_one = omega arith;
}
clamped-IsShare (infinite false) h = record {
  size = of_ℕ 1;
  same = refl;
  number = omega arith;
  at_most_one = omega arith;
}
clamped-IsShare (finite true a) h = record {
  size = of_ℕ 0;
  same = refl;
  number = omega arith;
  at_most_one = omega arith;
}
clamped-IsShare (finite false a) h = elim (Bool-cases (le_num a (of_ℕ 0))) [
  | inl low ↦
      rw (le_num, low)
        (record { size = of_ℕ 0; same = refl; number = omega arith; at_most_one = omega arith })
  | inr above ↦
      rw (le_num, above)
        (elim (Bool-cases (le_num (of_ℕ 1) a)) [
          | inl high ↦
              rw (le_num, high)
                (record {
                  size = of_ℕ 1;
                  same = refl;
                  number = omega arith;
                  at_most_one = omega arith;
                })
          | inr inside ↦
              rw (le_num, inside)
                (record { size = a; same = refl; number = h; at_most_one = ground arith })
        ])
]
