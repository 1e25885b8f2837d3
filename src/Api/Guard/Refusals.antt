-- ===== src/Api/Guard/Refusals.antt =====
-- signature-guard.ts: the answers to the requests that the guard refuses.
use fincart_assissment.Common.{
  ℕ, zero, suc, ◌/◌, ◌≡◌, ◌≢◌, ◌⊎◌, inl, inr, refl, Bool, true, false, Option, none, some, ltb,
  Bool-cases,
}
use fincart_assissment.Common.Text.{Str, text}
use fincart_assissment.Common.Parse.{ℤ, pos, negsuc, parse_int, infinity}
use fincart_assissment.Contracts.{HmacAlgorithm, invalid_signature, invalid_payload}
use fincart_assissment.Hmac.{
  Hmac, Verification, valid, invalid, VerifyHmacSignatureOptions, verify_hmac_signature,
}
use fincart_assissment.Hmac.Verify.{verify_hmac_signature-ne-none}
use fincart_assissment.Api.Request.{
  Header, absent, single, repeated, RawBody, no_body, text_body, buffer, Request, Response,
  rejected, get_trace_id,
}
use fincart_assissment.Api.Guard.{
  SignatureGuardOptions, Check, answer, crash, go, ◌>>=◌, parse_algorithm, header_text,
  known_algorithm, positive_timestamp, distance, fresh, body_buffer, verified, signature_guard,
}

-- The two kinds of refusal, under the trace id of the request.
abbrev pub IsRefusal : Str → Response → Type 0
IsRefusal t r =
    (message : Str) × ((r ≡ rejected 401 invalid_signature message t)
      ⊎ (r ≡ rejected 400 invalid_payload message t))

-- A check goes on or refuses; it does not throw.
abbrev pub Refuses : {A : Type 0} → Str → Check A → Type 0
Refuses t (answer r) = IsRefusal t r
Refuses t crash = ⊥
Refuses t (go a) = Unit

bind-Refuses :
    {A B : Type 0} (t : Str) (m : Check A) (f : A → Check B)
    → Refuses t m
    → ((a : A) → Refuses t (f a))
    → Refuses t (m >>= f)
bind-Refuses t (answer r) f h k = h
bind-Refuses t crash f h k = h
bind-Refuses t (go a) f h k = k a

header_text-Refuses : (h : Header) (t : Str) → Refuses t (header_text h t)
header_text-Refuses (single s) t = tt
header_text-Refuses absent t = (_, inl refl)
header_text-Refuses (repeated vs) t = (_, inl refl)

known_algorithm-Refuses : (o : Option HmacAlgorithm) (t : Str) → Refuses t (known_algorithm o t)
known_algorithm-Refuses (some a) t = tt
known_algorithm-Refuses none t = (_, inl refl)

positive_timestamp-Refuses :
    (bound : ℕ) (o : Option ℤ) (t : Str) → Refuses t (positive_timestamp bound o t)
positive_timestamp-Refuses bound none t = (_, inr refl)
positive_timestamp-Refuses bound (some (negsuc k)) t = (_, inr refl)
positive_timestamp-Refuses bound (some (pos zero)) t = (_, inr refl)
positive_timestamp-Refuses bound (some (pos (suc n))) t = elim (Bool-cases (ltb (suc n) bound)) [
  | inl small ↦ rw small tt
  | inr large ↦ rw large (text "Invalid signature timestamp header", inr refl)
]

fresh-Refuses : (outside : Bool) (t : Str) → Refuses t (fresh outside t)
fresh-Refuses true t = (_, inl refl)
fresh-Refuses false t = tt

body_buffer-Refuses : (b : RawBody) (t : Str) → Refuses t (body_buffer b t)
body_buffer-Refuses (buffer bytes) t = tt
body_buffer-Refuses no_body t = (_, inr refl)
body_buffer-Refuses (text_body s) t = (_, inr refl)

verified-Refuses : (o : Option Verification) (t : Str) → o ≢ none → Refuses t (verified o t)
verified-Refuses none t h = h refl
verified-Refuses (some valid) t h = tt
verified-Refuses (some (invalid reason)) t h = (reason, inl refl)

-- The guard never throws, and every answer of its own is 401 with INVALID_SIGNATURE or 400 with
-- INVALID_PAYLOAD, under the trace id of the request.
pub signature_guard-Refuses :
    (hmac : Hmac) (options : SignatureGuardOptions) (now : ℕ) (request : Request)
    → Refuses (get_trace_id request) (signature_guard hmac options now request)
unfolding signature_guard
signature_guard-Refuses hmac options now request =
    let t = get_trace_id request in
    bind-Refuses t (header_text request.x_signature t) _ (header_text-Refuses _ t) λ signature.
      bind-Refuses t (header_text request.x_signature_timestamp t) _ (header_text-Refuses _ t)
        λ stamp.
          bind-Refuses t (header_text request.x_signature_algorithm t) _ (header_text-Refuses _ t)
            λ name.
              bind-Refuses t (known_algorithm (parse_algorithm name) t) _
                (known_algorithm-Refuses _ t)
                λ algorithm.
                  bind-Refuses t (positive_timestamp infinity (parse_int stamp) t) _
                    (positive_timestamp-Refuses infinity _ t)
                    λ seconds.
                      bind-Refuses t
                        (fresh
                          (ltb options.signature_tolerance_seconds (distance (now / 1000) seconds))
                          t)
                        _ (fresh-Refuses _ t)
                        λ _.
                          bind-Refuses t (body_buffer request.raw_body t) _
                            (body_buffer-Refuses _ t)
                            λ bytes.
                              let opts : VerifyHmacSignatureOptions = record {
                                input = bytes;
                                secret = options.signing_secret;
                                algorithm = algorithm;
                                provided_signature_hex = signature;
                              } in
                              bind-Refuses t (verified (verify_hmac_signature hmac opts) t) _
                                (verified-Refuses _ t (verify_hmac_signature-ne-none hmac opts))
                                λ _. tt
