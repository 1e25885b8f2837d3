-- ===== src/Hmac/Hex.antt =====
-- hmac.ts: hexadecimal text and bytes.
use fincart_assissment.Common.{
  ℕ, ◌+◌, ◌*◌, ◌/◌, ◌%◌, ◌<◌, ◌≤◌, ◌≡◌, ◌≢◌, ◌⊎◌, refl, true, false, some, [], ◌∷◌, length, All,
  arith, ap,
}
use fincart_assissment.Common.Text.{Str, lower, to_lower_case, trim, is_empty, is_space}
use fincart_assissment.Common.Text.Laws.{trim_of_All}
use fincart_assissment.Hmac.{
  Buffer, is_hex_digit, all_hex_digits, is_strict_hex, hex_value, from_hex, hex_digit, to_hex,
  normalized, to_hex_buffer,
}

-- A digit as `toLowerCase` leaves it.
abbrev pub IsLowerHex : ℕ → Type 0
IsLowerHex c = ((48 ≤ c) × (c ≤ 57)) ⊎ ((97 ≤ c) × (c ≤ 102))

abbrev pub IsByte : ℕ → Type 0
IsByte b = b < 256

lower-IsLowerHex : (c : ℕ) → is_hex_digit (lower c) ≡ true → IsLowerHex (lower c)
unfolding lower is_hex_digit
lower-IsLowerHex c h = ground arith

to_lower_case-All :
    (s : Str) → all_hex_digits (to_lower_case s) ≡ true → All IsLowerHex (to_lower_case s)
unfolding to_lower_case all_hex_digits
to_lower_case-All [] h = tt
to_lower_case-All (c ∷ s) h =
    (lower-IsLowerHex c (ground arith), to_lower_case-All s (ground arith))

-- What the test of hexadecimal text establishes of a normalised text.
pub record IsHexText (s : Str) : Type 0 where
  pub nonempty : s ≢ []
  pub digits : All IsLowerHex s
  pub even : length s % 2 ≡ 0

pub is_strict_hex-IsHexText :
    (s : Str) → is_strict_hex (normalized s) ≡ true → IsHexText (normalized s)
unfolding is_strict_hex normalized is_empty
is_strict_hex-IsHexText s h = record {
  nonempty = λ e. ground arith;
  digits = to_lower_case-All (trim s) (ground arith);
  even = ground arith;
}

all_hex_digits_of_All : (s : Str) → All IsLowerHex s → all_hex_digits s ≡ true
unfolding all_hex_digits is_hex_digit
all_hex_digits_of_All [] h = refl
all_hex_digits_of_All (c ∷ s) (h, hs) = ground (arith, all_hex_digits_of_All s hs)

pub IsHexText-is_strict_hex : (s : Str) → IsHexText s → is_strict_hex s ≡ true
unfolding is_strict_hex is_empty
IsHexText-is_strict_hex [] h = absurd (h.nonempty refl)
IsHexText-is_strict_hex (c ∷ s) h =
    let even = h.even in ground (arith, all_hex_digits_of_All (c ∷ s) h.digits)

hex_value-lt : (c : ℕ) → IsLowerHex c → hex_value c < 16
unfolding hex_value
hex_value-lt c h = ground arith

hex_value-eq : (c e : ℕ) → IsLowerHex c → IsLowerHex e → hex_value c ≡ hex_value e → c ≡ e
unfolding hex_value
hex_value-eq c e hc he h = ground arith

hex_value_injective :
    (c d e f : ℕ)
    → IsLowerHex c
    → IsLowerHex d
    → IsLowerHex e
    → IsLowerHex f
    → hex_value c * 16 + hex_value d ≡ hex_value e * 16 + hex_value f
    → (c ≡ e) × (d ≡ f)
hex_value_injective c d e f hc hd he hf h =
    let d-lt = hex_value-lt d hd in
    let f-lt = hex_value-lt f hf in
    (hex_value-eq c e hc he (omega arith), hex_value-eq d f hd hf (omega arith))

pub from_hex_injective :
    (s t : Str)
    → All IsLowerHex s
    → All IsLowerHex t
    → length s % 2 ≡ 0
    → length t % 2 ≡ 0
    → from_hex s ≡ from_hex t
    → s ≡ t
unfolding from_hex
from_hex_injective [] [] hs ht es et h = refl
from_hex_injective [] (e ∷ []) hs ht es et h = absurd (omega arith)
from_hex_injective [] (e ∷ f ∷ t) hs ht es et h = cc
from_hex_injective (c ∷ []) t hs ht es et h = absurd (omega arith)
from_hex_injective (c ∷ d ∷ s) [] hs ht es et h = cc
from_hex_injective (c ∷ d ∷ s) (e ∷ []) hs ht es et h = absurd (omega arith)
from_hex_injective (c ∷ d ∷ s) (e ∷ f ∷ t) (hc, (hd, hs)) (he, (hf, ht)) es et h =
    ground (arith, hex_value_injective c d e f hc hd he hf, from_hex_injective s t hs ht)

hex_digit-IsLowerHex : (n : ℕ) → n < 16 → IsLowerHex (hex_digit n)
unfolding hex_digit
hex_digit-IsLowerHex n h = ground arith

hex_value-hex_digit : (n : ℕ) → n < 16 → hex_value (hex_digit n) ≡ n
unfolding hex_value hex_digit
hex_value-hex_digit n h = ground arith

pub to_hex-All : (b : Buffer) → All IsByte b → All IsLowerHex (to_hex b)
unfolding to_hex
to_hex-All [] h = tt
to_hex-All (b ∷ bs) (h, hs) = (
  hex_digit-IsLowerHex (b / 16) (omega arith),
  (hex_digit-IsLowerHex (b % 16) (omega arith), to_hex-All bs hs),
)

pub length-to_hex : (b : Buffer) → length (to_hex b) ≡ 2 * length b
unfolding to_hex
length-to_hex [] = refl
length-to_hex (b ∷ bs) = omega (arith, length-to_hex bs)

-- Decoding the hexadecimal text of a buffer gives the buffer back.
pub from_hex-to_hex : (b : Buffer) → All IsByte b → from_hex (to_hex b) ≡ b
unfolding to_hex from_hex
from_hex-to_hex [] h = refl
from_hex-to_hex (b ∷ bs) (h, hs) =
    ground
      (arith, from_hex-to_hex bs hs, hex_value-hex_digit (b / 16), hex_value-hex_digit (b % 16))

lower-eq : (c : ℕ) → IsLowerHex c → lower c ≡ c
unfolding lower
lower-eq c h = ground arith

to_lower_case-eq : (s : Str) → All IsLowerHex s → to_lower_case s ≡ s
unfolding to_lower_case
to_lower_case-eq [] h = refl
to_lower_case-eq (c ∷ s) (h, hs) = cc (lower-eq c h, to_lower_case-eq s hs)

is_space-false : (c : ℕ) → IsLowerHex c → is_space c ≡ false
unfolding is_space
is_space-false c h = ground arith

no_space : (s : Str) → All IsLowerHex s → All (λ c. is_space c ≡ false) s
no_space [] h = tt
no_space (c ∷ s) (h, hs) = (is_space-false c h, no_space s hs)

-- Normalising changes no text of lower-case digits.
pub normalized-eq : (s : Str) → All IsLowerHex s → normalized s ≡ s
unfolding normalized
normalized-eq s h = rw (trim_of_All s (no_space s h)) (to_lower_case-eq s h)

pub to_hex-IsHexText : (b : Buffer) → All IsByte b → b ≢ [] → IsHexText (to_hex b)
to_hex-IsHexText b h ne = record {
  nonempty = λ e. ne (to_hex-nil b e);
  digits = to_hex-All b h;
  even = omega (arith, length-to_hex b);
}
  where
    to_hex-nil : (c : Buffer) → to_hex c ≡ [] → c ≡ []
    to_hex-nil [] e = refl
    to_hex-nil (x ∷ c) e =
        absurd (omega (arith, length-to_hex (x ∷ c), ap (λ (l : Str). length l) e))

-- Decoding the text of a nonempty buffer of bytes gives the buffer back.
pub to_hex_buffer-to_hex : (b : Buffer) → All IsByte b → b ≢ [] → to_hex_buffer (to_hex b) ≡ some b
unfolding to_hex_buffer
to_hex_buffer-to_hex b h ne = rw (normalized-eq (to_hex b) (to_hex-All b h)) (
    rw (IsHexText-is_strict_hex (to_hex b) (to_hex-IsHexText b h ne))
      (ap some (from_hex-to_hex b h)))
