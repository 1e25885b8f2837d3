-- ===== src/Common/Lists.antt =====
-- Lists measured by native numbers, and predicates on all their items.
use Prim.Native.Nat.{ℕ, zero, suc, ◌+◌, ◌≤◌}
use mathlib.Core.Path.{◌≡◌, refl}
use mathlib.Core.Option.{Option, none, some}
use mathlib.Core.List.{List, [], ◌∷◌, ◌++◌}
use native.Mathlib.Omega.{arith}

module _ {ℓ} {A : Type ℓ} where
  abbrev pub length : List A → ℕ
  length [] = 0
  length (x ∷ xs) = suc (length xs)

  pub length-append : (xs ys : List A) → length (xs ++ ys) ≡ length xs + length ys
  length-append [] ys = omega arith
  length-append (x ∷ xs) ys = omega (arith, length-append xs ys)

abbrev pub All {ℓ κ} : {A : Type ℓ} → (A → Type κ) → List A → Type κ
All P [] = Unit
All P (x ∷ xs) = P x × All P xs

module _ {ℓ} {A : Type ℓ} where
  -- `items[index]`, which is `none` when `index >= items.length`.
  abbrev pub item_at : ℕ → List A → Option A
  item_at n [] = none
  item_at zero (x ∷ xs) = some x
  item_at (suc n) (x ∷ xs) = item_at n xs

  abbrev pub take : ℕ → List A → List A
  take zero xs = []
  take (suc n) [] = []
  take (suc n) (x ∷ xs) = x ∷ take n xs

  pub take_all : (n : ℕ) (xs : List A) → length xs ≤ n → take n xs ≡ xs
  take_all zero [] h = refl
  take_all zero (x ∷ xs) h = absurd (omega arith)
  take_all (suc n) [] h = refl
  take_all (suc n) (x ∷ xs) h = cc (take_all n xs (omega arith))

  pub length-take-le : (n : ℕ) (xs : List A) → length (take n xs) ≤ length xs
  length-take-le zero xs = omega arith
  length-take-le (suc n) [] = omega arith
  length-take-le (suc n) (x ∷ xs) = omega (arith, length-take-le n xs)

  -- The sum of the weights of the items.
  abbrev pub total : (A → ℕ) → List A → ℕ
  total weight [] = 0
  total weight (x ∷ xs) = weight x + total weight xs

  pub total-append :
      (weight : A → ℕ) (xs ys : List A)
      → total weight (xs ++ ys) ≡ total weight xs + total weight ys
  total-append weight [] ys = omega arith
  total-append weight (x ∷ xs) ys = omega (arith, total-append weight xs ys)

  pub total_one : (xs : List A) → total (λ _. 1) xs ≡ length xs
  total_one [] = refl
  total_one (x ∷ xs) = omega (arith, total_one xs)

  pub total-take-le :
      (weight : A → ℕ) (n : ℕ) (xs : List A) → total weight (take n xs) ≤ total weight xs
  total-take-le weight zero xs = omega arith
  total-take-le weight (suc n) [] = omega arith
  total-take-le weight (suc n) (x ∷ xs) = omega (arith, total-take-le weight n xs)

  -- The same items as often, in any order: no weight tells the lists apart.
  abbrev pub SameItems : List A → List A → Type ℓ
  SameItems xs ys = (weight : A → ℕ) → total weight xs ≡ total weight ys

-- One item of a list is replaced.
pub data Replaced {ℓ} {A : Type ℓ} (c c' : A) : List A → List A → Type ℓ where
  here : (cs : List A) → Replaced c c' (c ∷ cs) (c' ∷ cs)
  there : (d : A) {cs cs' : List A} → Replaced c c' cs cs' → Replaced c c' (d ∷ cs) (d ∷ cs')
