-- ===== src/Signing/RoundTrip.antt =====
-- A request that scripts/signing/generate-signed-event.ts makes, at the guard of
-- gateway-api/src/middleware/signature-guard.ts.
use fincart_assissment.Common.{
  ℕ, ◌/◌, ◌≤◌, ◌<◌, ◌≡◌, ◌≢◌, refl, sym, ◌∙◌, lt→ltb, leb, false, some, [], ◌∷◌, arith,
}
use fincart_assissment.Common.Text.{Str, text, str_eq, trim, to_lower_case, is_blank}
use fincart_assissment.Common.Parse.{infinity}
use fincart_assissment.Common.Parse.Laws.{parse_int-decimal}
use fincart_assissment.Contracts.{sha256, SignatureMeta}
use fincart_assissment.Hmac.{Hmac}
use fincart_assissment.Hmac.Hex.{to_hex-All, normalized-eq}
use fincart_assissment.Hmac.Verify.{IsDigest, verify_hmac_signature_iff}
use fincart_assissment.Api.Request.{Request, single, buffer}
use fincart_assissment.Api.Guard.{
  SignatureGuardOptions, distance, parse_algorithm, go, signature_guard,
}
use fincart_assissment.Api.Guard.Decision.{signature_guard_iff, options_for}
use fincart_assissment.Signing.{
  GenerateSignedEventOptions, Drawn, SignedEventPayload, body_object, generate_signed_event,
}
use fincart_assissment.Signing.Encode.{stringify, utf8}

-- The request as the server has it.
abbrev pub sent : SignedEventPayload → Request → Request
sent event request = record request {
  x_request_id = single event.x_request_id;
  x_signature = single event.x_signature;
  x_signature_timestamp = single event.x_signature_timestamp;
  x_signature_algorithm = single event.x_signature_algorithm;
  raw_body = buffer (utf8 event.body);
}

-- A character of ASCII is one byte.
utf8-ascii : (c : ℕ) (s : Str) → c < 128 → utf8 (c ∷ s) ≡ c ∷ utf8 s
unfolding utf8
utf8-ascii c [] h = rw (lt→ltb c 128 h) refl
utf8-ascii c (d ∷ s) h = rw (utf8, not_high c h, lt→ltb c 128 h) refl
  where
    not_high : (a : ℕ) → a < 128 → leb 0xd800 a ≡ false
    not_high a k = ground arith

utf8-nonempty : (c : ℕ) (s : Str) → c < 128 → utf8 (c ∷ s) ≢ []
utf8-nonempty c s h e = let clash = sym (utf8-ascii c s h) ∙ e in cc

body-nonempty :
    (options : GenerateSignedEventOptions) (drawn : Drawn)
    → utf8 (stringify (body_object options drawn)) ≢ []
unfolding stringify body_object
body-nonempty options drawn = utf8-nonempty 123 _ (omega arith)

known_name : parse_algorithm (text "hmac-sha256") ≡ some sha256
unfolding parse_algorithm str_eq trim to_lower_case
known_name = refl

module _ (hmac : Hmac) (d : IsDigest hmac) (options : GenerateSignedEventOptions)
    (drawn : Drawn) where
  abbrev pub event : SignedEventPayload
  event = generate_signed_event hmac options drawn

  -- The metadata that the guard finds in the headers.
  abbrev pub meta_of : SignatureMeta
  meta_of = record {
    algorithm = sha256;
    timestamp = drawn.now / 1000;
    signature_header = event.x_signature;
  }

  -- If the secret is not blank and the clock of the client is past the first second, the guard that
  -- has the same secret lets a generated request through as long as its own clock is within the
  -- tolerance, and finds in the headers the algorithm, the timestamp and the signature.
  pub signature_guard-generate_signed_event :
      (request : Request) (tolerance now : ℕ)
      → is_blank options.signing_secret ≡ false
      → 0 < drawn.now / 1000
      → drawn.now / 1000 < infinity
      → distance (now / 1000) (drawn.now / 1000) ≤ tolerance
      → signature_guard hmac
          (record {
            signing_secret = options.signing_secret;
            signature_tolerance_seconds = tolerance;
          })
          now
          (sent event request)
        ≡ go (record (sent event request) { signature_meta = some meta_of })
  unfolding generate_signed_event
  signature_guard-generate_signed_event request tolerance now secret positive finite near =
      let guard_options : SignatureGuardOptions = record {
        signing_secret = options.signing_secret;
        signature_tolerance_seconds = tolerance;
      } in
      let body = utf8 event.body in
      (signature_guard_iff hmac guard_options now (sent event request)
          (record (sent event request) { signature_meta = some meta_of })).1
        (
          meta_of,
          record {
            timestamp_header = event.x_signature_timestamp;
            algorithm_header = event.x_signature_algorithm;
            body = body;
            signature_given = refl;
            timestamp_given = refl;
            algorithm_given = refl;
            algorithm_known = known_name;
            timestamp_read = parse_int-decimal (drawn.now / 1000);
            timestamp_positive = positive;
            timestamp_finite = finite;
            within_tolerance = near;
            body_given = refl;
            authentic =
                (verify_hmac_signature_iff hmac d (
                    options_for hmac guard_options now (sent event request) body sha256
                      event.x_signature)).1
                  (
                    secret,
                    body-nonempty options drawn,
                    normalized-eq event.x_signature
                        (to_hex-All _ (d.bytes sha256 options.signing_secret body)),
                  );
          },
          refl,
        )
