-- ===== src/Hmac.antt =====
-- packages/shared/src/crypto/hmac.ts. A `Buffer` is a list of bytes. The keyed hash itself
-- (`createHmac`) is a parameter; `none` is an exception that `timingSafeEqual` throws.
pub mod Hex
pub mod Verify
use fincart_assissment.Common.{
  ℕ, ◌+◌, ◌-◌, ◌*◌, ◌/◌, ◌%◌, Bool, true, false, not, ◌&&◌, ◌||◌, Option, none, some, List, [], ◌∷◌,
  ◌++◌, ltb, leb, ◌==◌, if◌then◌else◌, length, zero, suc,
}
use fincart_assissment.Common.Text.{Str, text, str_eq, trim, to_lower_case, is_empty, is_blank}
use fincart_assissment.Contracts.{HmacAlgorithm}

abbrev pub Buffer : Type 0
Buffer = List ℕ

-- `createHmac(algorithm, secret).update(input).digest()`.
abbrev pub Hmac : Type 0
Hmac = HmacAlgorithm → Str → Buffer → Buffer

unfoldable pub is_hex_digit : ℕ → Bool
is_hex_digit c =
    (leb b'0' c && leb c b'9') || (leb b'a' c && leb c b'f') || (leb b'A' c && leb c b'F')

unfoldable pub all_hex_digits : Str → Bool
all_hex_digits [] = true
all_hex_digits (c ∷ s) = is_hex_digit c && all_hex_digits s

unfoldable pub is_strict_hex : Str → Bool
unfolding is_empty all_hex_digits is_hex_digit
is_strict_hex value = not (is_empty value) && all_hex_digits value && length value % 2 == 0

unfoldable pub hex_value : ℕ → ℕ
hex_value c = if leb c b'9' then c - 48 else if leb c b'F' then c - 55 else c - 87

-- `Buffer.from(hex, 'hex')` on pairs of hexadecimal digits.
unfoldable pub from_hex : Str → Buffer
unfolding hex_value
from_hex [] = []
from_hex (c ∷ []) = []
from_hex (c ∷ d ∷ s) = (hex_value c * 16 + hex_value d) ∷ from_hex s

unfoldable pub hex_digit : ℕ → ℕ
hex_digit n = if ltb n 10 then n + 48 else n + 87

-- `digest('hex')`.
unfoldable pub to_hex : Buffer → Str
unfolding hex_digit
to_hex [] = []
to_hex (b ∷ bs) = hex_digit (b / 16) ∷ hex_digit (b % 16) ∷ to_hex bs

unfoldable pub normalized : Str → Str
unfolding trim to_lower_case
normalized hex = to_lower_case (trim hex)

unfoldable pub to_hex_buffer : Str → Option Buffer
unfolding normalized is_strict_hex from_hex
to_hex_buffer hex =
    if not (is_strict_hex (normalized hex)) then none else some (from_hex (normalized hex))

unfoldable pub compute_hmac_hex : Hmac → Buffer → Str → HmacAlgorithm → Str
unfolding to_hex
compute_hmac_hex hmac input secret algorithm = to_hex (hmac algorithm secret input)

-- Node's `timingSafeEqual`: it throws on buffers of different lengths.
unfoldable pub timing_safe_equal : Buffer → Buffer → Option Bool
unfolding str_eq
timing_safe_equal a b = if length a == length b then some (str_eq a b) else none

abbrev zeros : ℕ → Buffer
zeros zero = []
zeros (suc n) = 0 ∷ zeros n

-- `Buffer.alloc(maxLen)` and `copy`.
unfoldable pub padded : ℕ → Buffer → Buffer
padded max_len b = b ++ zeros (max_len - length b)

unfoldable pub max : ℕ → ℕ → ℕ
max a b = if ltb a b then b else a

compare_buffers : Buffer → Buffer → Option Bool
unfolding timing_safe_equal padded max
compare_buffers a b =
    if length a == length b
    then timing_safe_equal a b
    else (elim (timing_safe_equal (padded (max (length a) (length b)) a)
        (padded (max (length a) (length b)) b)) [ none ↦ none | some _ ↦ some false ])

compare_optional : Option Buffer → Option Buffer → Option Bool
unfolding compare_buffers
compare_optional none b = some false
compare_optional (some a) none = some false
compare_optional (some a) (some b) = compare_buffers a b

unfoldable pub timing_safe_equal_hex : Str → Str → Option Bool
unfolding to_hex_buffer compare_optional
timing_safe_equal_hex a_hex b_hex = compare_optional (to_hex_buffer a_hex) (to_hex_buffer b_hex)

pub record VerifyHmacSignatureOptions : Type 0 where
  pub input : Buffer
  pub secret : Str
  pub algorithm : HmacAlgorithm
  pub provided_signature_hex : Str

pub data Verification : Type 0 where
  valid : Verification
  invalid : (reason : Str) → Verification

answer : Option Bool → Option Verification
answer none = none
answer (some true) = some valid
answer (some false) = some (invalid (text "Signature mismatch."))

unfoldable pub verify_hmac_signature : Hmac → VerifyHmacSignatureOptions → Option Verification
unfolding is_empty answer
verify_hmac_signature hmac opts =
    if is_empty opts.secret || is_blank opts.secret
    then some (invalid (text "Secret must be non-empty."))
    else if is_empty opts.input
    then some (invalid (text "Input buffer is empty."))
    else answer (
        timing_safe_equal_hex (compute_hmac_hex hmac opts.input opts.secret opts.algorithm)
          opts.provided_signature_hex)
