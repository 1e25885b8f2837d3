-- ===== src/Common/Text/Laws.antt =====
-- Laws of the texts: equality, case folding, inclusion.
use fincart_assissment.Common.Text.{
  is_space, trim_start, trim, Str, str_eq, lower, to_lower_case, starts_with, includes,
}
use fincart_assissment.Common.Tests.{==_iff}
use Prim.Native.Nat.{ℕ}
use mathlib.Core.Path.{◌≡◌, refl}
use mathlib.Core.Logic.{◌↔◌}
use mathlib.Core.Bool.{false, true}
use fincart_assissment.Common.Lists.{All}
use mathlib.Core.List.{reverse, reverse-cons, reverse-reverse, [], ◌∷◌, ◌++◌}
use native.Mathlib.Omega.{arith}

pub str_eq_sound : (s t : Str) → str_eq s t ≡ true → s ≡ t
unfolding str_eq
str_eq_sound [] [] h = refl
str_eq_sound [] (d ∷ t) h = cc
str_eq_sound (c ∷ s) [] h = cc
str_eq_sound (c ∷ s) (d ∷ t) h = ground (arith, str_eq_sound s t, ==_iff c d)

pub str_eq_refl : (s : Str) → str_eq s s ≡ true
unfolding str_eq
str_eq_refl [] = refl
str_eq_refl (c ∷ s) = ground (arith, str_eq_refl s)

pub str_eq_iff : (s t : Str) → (str_eq s t ≡ true) ↔ (s ≡ t)
str_eq_iff s t = (str_eq_sound s t, λ e. rw e (str_eq_refl t))

lower_idem : (c : ℕ) → lower (lower c) ≡ lower c
unfolding lower
lower_idem c = ground arith

pub to_lower_case_idem : (s : Str) → to_lower_case (to_lower_case s) ≡ to_lower_case s
unfolding to_lower_case
to_lower_case_idem [] = refl
to_lower_case_idem (c ∷ s) = cc (lower_idem c, to_lower_case_idem s)

starts_with-append : (s t : Str) → starts_with (s ++ t) s ≡ true
unfolding starts_with
starts_with-append [] [] = refl
starts_with-append [] (d ∷ t) = refl
starts_with-append (c ∷ s) t = ground (arith, starts_with-append s t)

-- A text includes whatever it starts with.
includes_of_starts_with : (s t : Str) → starts_with s t ≡ true → includes s t ≡ true
unfolding includes
includes_of_starts_with [] t h = h
includes_of_starts_with (c ∷ s) t h = rw h

pub includes-append : (s t : Str) → includes (s ++ t) s ≡ true
includes-append s t = includes_of_starts_with (s ++ t) s (starts_with-append s t)

trim_start_of_All : (s : Str) → All (λ c. is_space c ≡ false) s → trim_start s ≡ s
unfolding trim_start
trim_start_of_All [] h = refl
trim_start_of_All (c ∷ s) (h, hs) = rw h

All-append : (P : ℕ → Type 0) (xs ys : Str) → All P xs → All P ys → All P (xs ++ ys)
All-append P [] ys hx hy = hy
All-append P (x ∷ xs) ys (h, hx) hy = (h, All-append P xs ys hx hy)

All-reverse : (P : ℕ → Type 0) (xs : Str) → All P xs → All P (reverse xs)
All-reverse P [] h = tt
All-reverse P (x ∷ xs) (h, hx) =
    rw reverse-cons (All-append P (reverse xs) (x ∷ []) (All-reverse P xs hx) (h, tt))

-- Trimming changes no text that holds no space.
pub trim_of_All : (s : Str) → All (λ c. is_space c ≡ false) s → trim s ≡ s
unfolding trim
trim_of_All s h =
    rw (trim_start_of_All s h)
      (rw (trim_start_of_All (reverse s) (All-reverse _ s h)) (reverse-reverse s))
