-- ===== src/Api/Guard/Decision.antt =====
-- signature-guard.ts: which requests the guard lets through.
use fincart_assissment.Common.{
  ℕ, zero, suc, ◌/◌, ◌≤◌, ◌<◌, ◌≡◌, ◌↔◌, refl, sym, Bool, true, false, Option, none, some, ltb,
  arith, lt→ltb, ltb-false→le,
}
use fincart_assissment.Common.Text.{Str}
use fincart_assissment.Common.Parse.{ℤ, pos, negsuc, parse_int, infinity}
use fincart_assissment.Contracts.{HmacAlgorithm, SignatureMeta}
use fincart_assissment.Hmac.{
  Buffer, Hmac, VerifyHmacSignatureOptions, Verification, valid, invalid, verify_hmac_signature,
}
use fincart_assissment.Api.Request.{
  Header, absent, single, repeated, RawBody, no_body, text_body, buffer, Request, get_trace_id,
}
use fincart_assissment.Api.Guard.{
  SignatureGuardOptions, Check, answer, crash, go, ◌>>=◌, parse_algorithm, header_text,
  known_algorithm, positive_timestamp, distance, fresh, body_buffer, verified, signature_guard,
}

-- A check that went on did so at each step.
bind-eq-go {ℓ} :
    {A B : Type 0} {C : Type ℓ} (m : Check A) (f : A → Check B) {b : B}
    → (m >>= f) ≡ go b
    → ((a : A) → m ≡ go a → f a ≡ go b → C)
    → C
bind-eq-go (answer r) f h k = absurd (cc)
bind-eq-go crash f h k = absurd (cc)
bind-eq-go (go a) f h k = k a refl h

header_text-eq-go : (h : Header) (t s : Str) → header_text h t ≡ go s → h ≡ single s
header_text-eq-go (single s') t s h = cc
header_text-eq-go absent t s h = cc
header_text-eq-go (repeated vs) t s h = cc

known_algorithm-eq-go :
    (o : Option HmacAlgorithm) (t : Str) (a : HmacAlgorithm)
    → known_algorithm o t ≡ go a
    → o ≡ some a
known_algorithm-eq-go none t a h = cc
known_algorithm-eq-go (some b) t a h = cc

positive_timestamp-eq-go :
    (bound : ℕ) (o : Option ℤ) (t : Str) (n : ℕ)
    → positive_timestamp bound o t ≡ go n
    → (o ≡ some (pos n)) × (0 < n) × (n < bound)
positive_timestamp-eq-go bound none t n h = cc
positive_timestamp-eq-go bound (some (negsuc k)) t n h = cc
positive_timestamp-eq-go bound (some (pos zero)) t n h = cc
positive_timestamp-eq-go bound (some (pos (suc k))) t n h =
    (ground arith, ground arith, ground arith)

go_positive :
    (bound : ℕ) (n : ℕ) (t : Str)
    → 0 < n
    → n < bound
    → positive_timestamp bound (some (pos n)) t ≡ go n
go_positive bound zero t h k = absurd (omega arith)
go_positive bound (suc n) t h k = rw (lt→ltb _ _ k)

fresh-eq-go : (outside : Bool) (t : Str) {u : Unit {0}} → fresh outside t ≡ go u → outside ≡ false
fresh-eq-go true t h = cc
fresh-eq-go false t h = refl

body_buffer-eq-go :
    (b : RawBody) (t : Str) (bytes : Buffer) → body_buffer b t ≡ go bytes → b ≡ buffer bytes
body_buffer-eq-go (buffer bs) t bytes h = cc
body_buffer-eq-go no_body t bytes h = cc
body_buffer-eq-go (text_body s) t bytes h = cc

verified-eq-go :
    (o : Option Verification) (t : Str) {u : Unit {0}} → verified o t ≡ go u → o ≡ some valid
verified-eq-go none t h = cc
verified-eq-go (some valid) t h = refl
verified-eq-go (some (invalid r)) t h = cc

go-injective : {A : Type 0} {a b : A} → go a ≡ go b → a ≡ b
go-injective h = cc

le→ltb-false : (a b : ℕ) → b ≤ a → ltb a b ≡ false
le→ltb-false a b h = ground arith

module _ (hmac : Hmac) (options : SignatureGuardOptions) (now : ℕ) (request : Request) where
  abbrev pub options_for : Buffer → HmacAlgorithm → Str → VerifyHmacSignatureOptions
  options_for body algorithm signature = record {
    input = body;
    secret = options.signing_secret;
    algorithm = algorithm;
    provided_signature_hex = signature;
  }

  -- The conditions under which a request is let through, with the metadata that it then carries.
  pub record Admits (meta : SignatureMeta) : Type 0 where
    pub timestamp_header : Str
    pub algorithm_header : Str
    pub body : Buffer
    pub signature_given : request.x_signature ≡ single meta.signature_header
    pub timestamp_given : request.x_signature_timestamp ≡ single timestamp_header
    pub algorithm_given : request.x_signature_algorithm ≡ single algorithm_header
    pub algorithm_known : parse_algorithm algorithm_header ≡ some meta.algorithm
    pub timestamp_read : parse_int timestamp_header ≡ some (pos meta.timestamp)
    pub timestamp_positive : 0 < meta.timestamp
    pub timestamp_finite : meta.timestamp < infinity
    pub within_tolerance :
        distance (now / 1000) meta.timestamp ≤ options.signature_tolerance_seconds
    pub body_given : request.raw_body ≡ buffer body
    pub authentic :
        verify_hmac_signature hmac (options_for body meta.algorithm meta.signature_header)
        ≡ some valid

  abbrev pub Admitted : Request → Type 0
  Admitted r =
      (meta : SignatureMeta) × Admits meta × (r ≡ record request { signature_meta = some meta })

  guard_sound : (r : Request) → signature_guard hmac options now request ≡ go r → Admitted r
  unfolding signature_guard
  guard_sound r h =
      let t = get_trace_id request in
      bind-eq-go (header_text request.x_signature t) _ h λ signature e₁ h₁.
        bind-eq-go (header_text request.x_signature_timestamp t) _ h₁ λ stamp e₂ h₂.
          bind-eq-go (header_text request.x_signature_algorithm t) _ h₂ λ name e₃ h₃.
            bind-eq-go (known_algorithm (parse_algorithm name) t) _ h₃ λ algorithm e₄ h₄.
              bind-eq-go (positive_timestamp infinity (parse_int stamp) t) _ h₄ λ seconds e₅ h₅.
                bind-eq-go
                  (fresh (ltb options.signature_tolerance_seconds (distance (now / 1000) seconds))
                    t)
                  _ h₅
                  λ _ e₆ h₆. bind-eq-go (body_buffer request.raw_body t) _ h₆ λ bytes e₇ h₇.
                    bind-eq-go
                      (verified (verify_hmac_signature hmac (options_for bytes algorithm signature))
                        t)
                      _ h₇
                      λ _ e₈ h₈.
                        let stamped =
                          positive_timestamp-eq-go infinity (parse_int stamp) t seconds e₅ in
                        (
                          record {
                            algorithm = algorithm;
                            timestamp = seconds;
                            signature_header = signature;
                          },
                          record {
                            timestamp_header = stamp;
                            algorithm_header = name;
                            body = bytes;
                            signature_given = header_text-eq-go _ t signature e₁;
                            timestamp_given = header_text-eq-go _ t stamp e₂;
                            algorithm_given = header_text-eq-go _ t name e₃;
                            algorithm_known = known_algorithm-eq-go _ t algorithm e₄;
                            timestamp_read = stamped.0;
                            timestamp_positive = stamped.1;
                            timestamp_finite = stamped.2;
                            within_tolerance = ltb-false→le _ _ (fresh-eq-go _ t e₆);
                            body_given = body_buffer-eq-go _ t bytes e₇;
                            authentic = verified-eq-go _ t e₈;
                          },
                          sym (go-injective h₈),
                        )

  guard_complete :
      (meta : SignatureMeta)
      → Admits meta
      → signature_guard hmac options now request
        ≡ go (record request { signature_meta = some meta })
  unfolding signature_guard
  guard_complete meta a = rw (
    a.signature_given,
    a.timestamp_given,
    a.algorithm_given,
    a.algorithm_known,
    a.timestamp_read,
    go_positive infinity meta.timestamp _ a.timestamp_positive a.timestamp_finite,
    le→ltb-false _ _ a.within_tolerance,
    a.body_given,
    a.authentic,
  )

-- The guard lets a request through exactly when its three headers are given once each, the
-- algorithm is known, the timestamp is a positive finite number within the tolerance of the clock,
-- the raw body is a buffer and the signature of that body verifies; and it changes nothing of the
-- request but its `signatureMeta`, which holds that algorithm, timestamp and signature.
pub signature_guard_iff :
    (hmac : Hmac) (options : SignatureGuardOptions) (now : ℕ) (request r : Request)
    → (signature_guard hmac options now request ≡ go r) ↔ Admitted hmac options now request r
signature_guard_iff hmac options now request r = (
  guard_sound hmac options now request r,
  λ (meta, a, e). rw e (guard_complete hmac options now request meta a),
)

-- The signature does not cover the timestamp: a request that was let through once is let through
-- at any other time, with the same body and signature, under any timestamp header that the clock
-- accepts then.
pub signature_guard_replay :
    (hmac : Hmac) (options : SignatureGuardOptions) (now : ℕ) (request r : Request)
    → signature_guard hmac options now request ≡ go r
    → (now' : ℕ) (stamp : Str) (n : ℕ) → parse_int stamp ≡ some (pos n)
    → 0 < n
    → n < infinity
    → distance (now' / 1000) n ≤ options.signature_tolerance_seconds
    → (meta : SignatureMeta) × (signature_guard hmac options now'
          (record request { x_signature_timestamp = single stamp })
        ≡ go (record request {
          x_signature_timestamp = single stamp;
          signature_meta = some (record meta { timestamp = n });
        }))
signature_guard_replay hmac options now request r h now' stamp n read positive finite near =
    let (meta, a, e) = guard_sound hmac options now request r h in
    (
      meta,
      guard_complete hmac options now' (record request { x_signature_timestamp = single stamp })
          (record meta { timestamp = n })
          (record {
            timestamp_header = stamp;
            algorithm_header = a.algorithm_header;
            body = a.body;
            signature_given = a.signature_given;
            timestamp_given = refl;
            algorithm_given = a.algorithm_given;
            algorithm_known = a.algorithm_known;
            timestamp_read = read;
            timestamp_positive = positive;
            timestamp_finite = finite;
            within_tolerance = near;
            body_given = a.body_given;
            authentic = a.authentic;
          }),
    )
