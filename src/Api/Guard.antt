-- ===== src/Api/Guard.antt =====
-- gateway-api/src/middleware/signature-guard.ts. The guard either answers the request itself or
-- lets it through with its `signatureMeta` set.
pub mod Decision
pub mod Refusals
use fincart_assissment.Common.{
  ℕ, zero, suc, ◌-◌, ◌/◌, Bool, ◌||◌, Option, none, some, ltb, leb, if◌then◌else◌,
}
use fincart_assissment.Common.Text.{Str, text, str_eq, trim, to_lower_case}
use fincart_assissment.Common.Parse.{ℤ, pos, negsuc, parse_int, infinity}
use fincart_assissment.Contracts.{
  HmacAlgorithm, sha256, sha512, SignatureMeta, ErrorCode, invalid_signature, invalid_payload,
}
use fincart_assissment.Hmac.{
  Buffer, Hmac, VerifyHmacSignatureOptions, Verification, valid, invalid, verify_hmac_signature,
}
use fincart_assissment.Api.Request.{
  Header, absent, single, repeated, RawBody, no_body, text_body, buffer, Request, Response,
  rejected, get_trace_id,
}

pub record SignatureGuardOptions : Type 0 where
  pub signing_secret : Str
  pub signature_tolerance_seconds : ℕ

-- An early `return sendError(...)`, an exception, or going on.
pub data Check (A : Type 0) : Type 0 where
  answer : Response → Check A
  crash : Check A
  go : A → Check A

infixl 5 ◌>>=◌
abbrev pub ◌>>=◌ : {A B : Type 0} → Check A → (A → Check B) → Check B
answer r >>= f = answer r
crash >>= f = crash
go a >>= f = f a

abbrev pub send_error : {A : Type 0} → ℕ → ErrorCode → Str → Str → Check A
send_error status_code error_code message trace_id =
    answer (rejected status_code error_code message trace_id)

unfoldable pub parse_algorithm : Str → Option HmacAlgorithm
parse_algorithm raw =
    let normalized = to_lower_case (trim raw) in
    if str_eq normalized (text "hmac-sha256")
    then some sha256
    else if str_eq normalized (text "hmac-sha512")
    then some sha512
    else none

-- `typeof header === 'string'`.
abbrev pub header_text : Header → Str → Check Str
header_text (single s) trace_id = go s
header_text absent trace_id =
    send_error 401 invalid_signature (text "Missing signature headers") trace_id
header_text (repeated values) trace_id =
    send_error 401 invalid_signature (text "Missing signature headers") trace_id

abbrev pub known_algorithm : Option HmacAlgorithm → Str → Check HmacAlgorithm
known_algorithm (some algorithm) trace_id = go algorithm
known_algorithm none trace_id =
    send_error 401 invalid_signature (text "Unsupported signature algorithm") trace_id

-- `Number.isInteger(timestamp) && timestamp > 0`.
abbrev pub positive_timestamp : ℕ → Option ℤ → Str → Check ℕ
positive_timestamp bound (some (pos (suc n))) trace_id =
    if ltb (suc n) bound
    then go (suc n)
    else send_error 400 invalid_payload (text "Invalid signature timestamp header") trace_id
positive_timestamp bound (some (pos zero)) trace_id =
    send_error 400 invalid_payload (text "Invalid signature timestamp header") trace_id
positive_timestamp bound (some (negsuc n)) trace_id =
    send_error 400 invalid_payload (text "Invalid signature timestamp header") trace_id
positive_timestamp bound none trace_id =
    send_error 400 invalid_payload (text "Invalid signature timestamp header") trace_id

-- `Math.abs(a - b)`.
abbrev pub distance : ℕ → ℕ → ℕ
distance a b = if leb a b then b - a else a - b

abbrev pub fresh : Bool → Str → Check (Unit {0})
fresh outside trace_id =
    if outside
    then send_error 401 invalid_signature (text "Signature timestamp is outside tolerance") trace_id
    else go tt

abbrev pub body_buffer : RawBody → Str → Check Buffer
body_buffer (buffer bytes) trace_id = go bytes
body_buffer no_body trace_id =
    send_error 400 invalid_payload (text "Raw request body is unavailable") trace_id
body_buffer (text_body s) trace_id =
    send_error 400 invalid_payload (text "Raw request body is unavailable") trace_id

abbrev pub verified : Option Verification → Str → Check (Unit {0})
verified none trace_id = crash
verified (some valid) trace_id = go tt
verified (some (invalid reason)) trace_id = send_error 401 invalid_signature reason trace_id

-- `now` is `Date.now()`, in milliseconds.
unfoldable pub signature_guard : Hmac → SignatureGuardOptions → ℕ → Request → Check Request
signature_guard hmac options now request = do
  let trace_id = get_trace_id request
  signature_header ← header_text request.x_signature trace_id
  timestamp_header ← header_text request.x_signature_timestamp trace_id
  algorithm_header ← header_text request.x_signature_algorithm trace_id
  algorithm ← known_algorithm (parse_algorithm algorithm_header) trace_id
  timestamp_seconds ← positive_timestamp infinity (parse_int timestamp_header) trace_id
  _ ←
      fresh (ltb options.signature_tolerance_seconds (distance (now / 1000) timestamp_seconds))
        trace_id
  raw_body ← body_buffer request.raw_body trace_id
  _ ←
      verified
        (verify_hmac_signature hmac (record {
          input = raw_body;
          secret = options.signing_secret;
          algorithm = algorithm;
          provided_signature_hex = signature_header;
        }))
        trace_id
  go (record request {
    signature_meta = some (record {
      algorithm = algorithm;
      timestamp = timestamp_seconds;
      signature_header = signature_header;
    });
  })
