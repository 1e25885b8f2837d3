-- ===== src/Common/Text/Inclusion.antt =====
-- What `includes` finds, as JavaScript's `String.prototype.includes` promises it.
use Prim.Native.Nat.{ℕ}
use mathlib.Core.Path.{◌≡◌, refl, ap}
use mathlib.Core.Logic.{◌↔◌, inl, inr}
use mathlib.Core.Bool.{Bool, true, ◌&&◌}
use mathlib.Core.List.{[], ◌∷◌, ◌++◌}
use fincart_assissment.Common.Tests.{◌==◌, Bool-cases, ==_iff}
use fincart_assissment.Common.Text.{Str, starts_with, includes}
use native.Mathlib.Omega.{arith}

-- The text has the word somewhere.
abbrev pub Contains : Str → Str → Type 0
Contains s word = (before : Str) × (after : Str) × (s ≡ before ++ (word ++ after))

starts_with_sound : (s t : Str) → starts_with s t ≡ true → (after : Str) × (s ≡ t ++ after)
unfolding starts_with
starts_with_sound s [] h = (s, refl)
starts_with_sound [] (d ∷ t) h = absurd (cc)
starts_with_sound (c ∷ s) (d ∷ t) h =
    let (same, rest) = both (c == d) (starts_with s t) h in
    let (after, e) = starts_with_sound s t rest in (after, rw ((==_iff c d).0 same, e) refl)
  where
    both : (a b : Bool) → (a && b) ≡ true → (a ≡ true) × (b ≡ true)
    both a b k = ground arith

starts_with_complete : (t after : Str) → starts_with (t ++ after) t ≡ true
unfolding starts_with
starts_with_complete [] [] = refl
starts_with_complete [] (a ∷ after) = refl
starts_with_complete (c ∷ t) after = ground (arith, starts_with_complete t after)

includes_sound : (s t : Str) → includes s t ≡ true → Contains s t
unfolding includes
includes_sound [] t h = let (after, e) = starts_with_sound [] t h in ([], after, e)
includes_sound (c ∷ s) t h = elim (Bool-cases (starts_with (c ∷ s) t)) [
  | inl here ↦ let (after, e) = starts_with_sound (c ∷ s) t here in ([], after, e)
  | inr later ↦
      let (before, after, e) = includes_sound s t (rw later at h) in
      (c ∷ before, after, ap (λ l. c ∷ l) e)
]

includes_later : (c : ℕ) (s t : Str) → includes s t ≡ true → includes (c ∷ s) t ≡ true
unfolding includes
includes_later c s t h = ground arith

includes_here : (s t : Str) → starts_with s t ≡ true → includes s t ≡ true
unfolding includes
includes_here [] t h = h
includes_here (c ∷ s) t h = rw h

includes_complete : (before t after : Str) → includes (before ++ (t ++ after)) t ≡ true
includes_complete [] t after = includes_here (t ++ after) t (starts_with_complete t after)
includes_complete (c ∷ before) t after =
    includes_later c (before ++ (t ++ after)) t (includes_complete before t after)

pub includes_iff : (s t : Str) → (includes s t ≡ true) ↔ Contains s t
includes_iff s t =
    (includes_sound s t, λ (before, after, e). rw e (includes_complete before t after))
