-- ===== src/Examples/Signatures.antt =====
-- packages/shared/src/crypto/hmac.ts on a short input.
use fincart_assissment.Common.{◌≡◌, refl, some, [], ◌∷◌, Bool, ◌&&◌, ◌≢◌, ◌↔◌}
use fincart_assissment.Common.Text.{text, str_eq, is_blank}
use fincart_assissment.Contracts.{sha256}
use fincart_assissment.Hmac.{
  VerifyHmacSignatureOptions, valid, verify_hmac_signature, timing_safe_equal_hex, is_strict_hex,
  normalized, to_hex, to_hex_buffer, compute_hmac_hex,
}
use fincart_assissment.Hmac.Verify.{timing_safe_equal_hex_lem, verify_hmac_signature_iff}
use fincart_assissment.Examples.Services.{short_hash, short_hash-IsDigest}

timing_safe_equal_hex_lem_example :
    timing_safe_equal_hex (text "AB10") (text " ab10")
    ≡ some (
        is_strict_hex (normalized (text "AB10"))
        && str_eq (normalized (text "AB10")) (normalized (text " ab10")))
timing_safe_equal_hex_lem_example = timing_safe_equal_hex_lem (text "AB10") (text " ab10")

abbrev signed_bytes : VerifyHmacSignatureOptions
signed_bytes = record {
  input = 1 ∷ 2 ∷ 3 ∷ [];
  secret = text "key";
  algorithm = sha256;
  provided_signature_hex = text "06";
}

verify_hmac_signature_iff_example : (verify_hmac_signature short_hash signed_bytes ≡ some valid) ↔ (
    (is_blank (text "key") ≡ Bool.false)
    × (signed_bytes.input ≢ [])
    × (normalized (text "06") ≡ to_hex (short_hash sha256 (text "key") (1 ∷ 2 ∷ 3 ∷ []))))
verify_hmac_signature_iff_example =
    verify_hmac_signature_iff short_hash short_hash-IsDigest signed_bytes

-- The signature `06` of the example is accepted.
accepted : verify_hmac_signature short_hash signed_bytes ≡ some valid
unfolding verify_hmac_signature timing_safe_equal_hex to_hex_buffer is_strict_hex normalized to_hex
    is_blank compute_hmac_hex
accepted = refl
