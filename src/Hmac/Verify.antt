-- ===== src/Hmac/Verify.antt =====
-- hmac.ts: what the comparison of signatures and the verification decide.
use fincart_assissment.Common.{
  ℕ, ◌-◌, ◌≤◌, ◌≡◌, ◌≢◌, ◌↔◌, inl, inr, refl, true, false, not, ◌&&◌, Option, none, some, [], ◌∷◌,
  ◌==◌, if◌then◌else◌, length, length-append, zero, suc, All, arith, Bool-cases, ap, ◌∙◌,
}
use fincart_assissment.Common.Text.{Str, str_eq, is_empty, is_blank}
use fincart_assissment.Common.Text.Laws.{str_eq_sound, str_eq_refl}
use fincart_assissment.Contracts.{HmacAlgorithm}
use fincart_assissment.Hmac.{
  Buffer, Hmac, is_strict_hex, from_hex, to_hex, normalized, zeros, padded, max, timing_safe_equal,
  compare_buffers, timing_safe_equal_hex, compute_hmac_hex, VerifyHmacSignatureOptions, valid,
  verify_hmac_signature,
}
use fincart_assissment.Hmac.Hex.{
  IsByte, IsHexText, is_strict_hex-IsHexText, IsHexText-is_strict_hex, from_hex_injective,
  to_hex-All, to_hex-IsHexText, normalized-eq,
}

length-zeros : (n : ℕ) → length (zeros n) ≡ n
length-zeros zero = refl
length-zeros (suc n) = ap suc (length-zeros n)

length-padded : (n : ℕ) (b : Buffer) → length b ≤ n → length (padded n b) ≡ n
unfolding padded
length-padded n b h =
    omega (arith, length-append b (zeros (n - length b)), length-zeros (n - length b))

padded_equal :
    (a b : Buffer)
    → (length (padded (max (length a) (length b)) a)
        == length (padded (max (length a) (length b)) b))
      ≡ true
unfolding max
padded_equal a b = ground (
  arith,
  length-padded (max (length a) (length b)) a,
  length-padded (max (length a) (length b)) b,
)

str_eq-false_of_length : (a b : Buffer) → (length a == length b) ≡ false → str_eq a b ≡ false
unfolding str_eq
str_eq-false_of_length a b h = elim (Bool-cases (str_eq a b)) [
  | inl same ↦
      let e = ap (λ (l : Buffer). length l) (str_eq_sound a b same) in absurd (ground arith)
  | inr other ↦ other
]

-- The comparison never throws, and is equality of the buffers.
compare_buffers_lem : (a b : Buffer) → compare_buffers a b ≡ some (str_eq a b)
unfolding compare_buffers timing_safe_equal
compare_buffers_lem a b = elim (Bool-cases (length a == length b)) [
  | inl same ↦ rw same
  | inr other ↦ rw (other, padded_equal a b, str_eq-false_of_length a b other)
]

abbrev buffer_of : Str → Option Buffer
buffer_of s = if not (is_strict_hex s) then none else some (from_hex s)

str_eq-from_hex :
    (s t : Str) → IsHexText s → IsHexText t → str_eq (from_hex s) (from_hex t) ≡ str_eq s t
str_eq-from_hex s t hs ht = elim (Bool-cases (str_eq s t)) [
  | inl same ↦ rw (str_eq_sound s t same, str_eq_refl, str_eq_refl)
  | inr other ↦ elim (Bool-cases (str_eq (from_hex s) (from_hex t))) [
    | inl clash ↦
        let e =
          from_hex_injective s t hs.digits ht.digits hs.even ht.even (str_eq_sound _ _ clash) in
        absurd (ground (arith, str_eq_refl t))
    | inr differ ↦ rw (other, differ)
  ]
]

strict_differ : (s t : Str) → is_strict_hex s ≡ true → is_strict_hex t ≡ false → str_eq s t ≡ false
strict_differ s t h k = elim (Bool-cases (str_eq s t)) [
  | inl same ↦ let e = ap is_strict_hex (str_eq_sound s t same) in cc
  | inr other ↦ other
]

-- Comparing two hexadecimal texts never throws, whatever their lengths, and tells exactly whether,
-- trimmed and in lower case, they are one well-formed hexadecimal text.
pub timing_safe_equal_hex_lem :
    (a b : Str)
    → timing_safe_equal_hex a b
      ≡ some (is_strict_hex (normalized a) && str_eq (normalized a) (normalized b))
unfolding timing_safe_equal_hex
timing_safe_equal_hex_lem a b = elim (Bool-cases (is_strict_hex (normalized a))) [
  | inr bad ↦ rw bad
  | inl good ↦ elim (Bool-cases (is_strict_hex (normalized b))) [
    | inr bad ↦ rw (good, bad, strict_differ _ _ good bad)
    | inl good' ↦
        rw (good, good', compare_buffers_lem _ _)
          (ap some (
            str_eq-from_hex _ _ (is_strict_hex-IsHexText a good) (is_strict_hex-IsHexText b good')))
  ]
]

-- What is relied on of `createHmac`: a digest is a nonempty sequence of bytes.
pub record IsDigest (hmac : Hmac) : Type 0 where
  pub bytes :
      (algorithm : HmacAlgorithm) (secret : Str) (input : Buffer)
      → All IsByte (hmac algorithm secret input)
  pub nonempty :
      (algorithm : HmacAlgorithm) (secret : Str) (input : Buffer) → hmac algorithm secret input ≢ []

-- The answer of the comparison with a digest's text.
pub compare_digest :
    (d : Buffer) (provided : Str)
    → All IsByte d
    → d ≢ []
    → timing_safe_equal_hex (to_hex d) provided ≡ some (str_eq (to_hex d) (normalized provided))
compare_digest d provided h ne =
    timing_safe_equal_hex_lem (to_hex d) provided
    ∙ rw (
      normalized-eq (to_hex d) (to_hex-All d h),
      IsHexText-is_strict_hex (to_hex d) (to_hex-IsHexText d h ne),
    )

blank_of_empty : (s : Str) → is_blank s ≡ false → is_empty s ≡ false
unfolding is_blank is_empty
blank_of_empty [] h = h
blank_of_empty (c ∷ s) h = refl

-- A signature is accepted exactly when the secret is not blank, the input is not empty and the
-- signature, trimmed and in lower case, is the hexadecimal text of the input's keyed hash.
pub verify_hmac_signature_iff :
    (hmac : Hmac)
    → IsDigest hmac
    → (opts : VerifyHmacSignatureOptions)
    → (verify_hmac_signature hmac opts ≡ some valid) ↔ (
        (is_blank opts.secret ≡ false)
        × (opts.input ≢ [])
        × (normalized opts.provided_signature_hex
            ≡ to_hex (hmac opts.algorithm opts.secret opts.input)))
unfolding verify_hmac_signature compute_hmac_hex
verify_hmac_signature_iff hmac d opts =
    let h = hmac opts.algorithm opts.secret opts.input in
    let compared =
      compare_digest h opts.provided_signature_hex (d.bytes opts.algorithm opts.secret opts.input)
        (d.nonempty opts.algorithm opts.secret opts.input) in
    ground (
      arith,
      compared,
      blank_of_empty opts.secret,
      str_eq_sound (to_hex h) (normalized opts.provided_signature_hex),
      str_eq_refl (to_hex h),
    )

-- Verification never throws.
pub verify_hmac_signature-ne-none :
    (hmac : Hmac) (opts : VerifyHmacSignatureOptions) → verify_hmac_signature hmac opts ≢ none
unfolding verify_hmac_signature
verify_hmac_signature-ne-none hmac opts = ground (
  arith,
  timing_safe_equal_hex_lem (compute_hmac_hex hmac opts.input opts.secret opts.algorithm)
      opts.provided_signature_hex,
)
