-- ===== src/Service/Start/Serving.antt =====
-- The guard of a gateway that has started (gateway-api/src/main.ts), and the requests that
-- scripts/signing/generate-signed-event.ts makes with the secret of the same environment.
use fincart_assissment.Common.{
  ℕ, ◌/◌, ◌≤◌, ◌<◌, ◌≡◌, refl, sym, ap, ◌∙◌, false, Option, none, some, [], ◌∷◌, ◌++◌,
}
use mathlib.Core.Path.{subst}
use mathlib.Core.Option.{some-injective}
use fincart_assissment.Common.Text.{Str, text, trim, is_blank}
use fincart_assissment.Common.Parse.{infinity}
use fincart_assissment.Effects.{Reply, ok, throw, continue}
use fincart_assissment.Effects.Post.{Post, returned, thrown, Post-weaken, Post-ok}
use fincart_assissment.Hmac.{Hmac}
use fincart_assissment.Hmac.Verify.{IsDigest}
use fincart_assissment.Api.Request.{Request}
use fincart_assissment.Api.Guard.{SignatureGuardOptions, distance, go, signature_guard}
use fincart_assissment.Signing.{
  Drawn, SignedEventPayload, generate_signed_event, cli_options, sign_cli,
}
use fincart_assissment.Signing.RoundTrip.{sent, meta_of, signature_guard-generate_signed_event}
use fincart_assissment.Service.Connection.{RedisOptions}
use fincart_assissment.Service.Environment.{IsEnvSchemas, ApiEnv, load_api_env}
use fincart_assissment.Service.Environment.Gateway.{load_api_env-IsApiEnv}
use fincart_assissment.Service.Shutdown.{redis_connection, queue}
use fincart_assissment.Service.Start.{
  StartError, invalid_environment, Libraries, Boot, Starting, given_or, connects, on_server,
  ApiService, redis_of, api_service, listening, wire_api, connect_api, start_api,
}

module _ {E : Type 0} (l : Libraries E) where
  -- A service made of an environment.
  abbrev MadeOf : ApiEnv → Boot l → ApiService → Type 0
  MadeOf env s service = (redis : RedisOptions) × (service ≡ api_service l env redis)

  abbrev Whatever : Boot l → StartError E → Type 0
  Whatever s e = Unit {0}

  then_any :
      {A B : Type 0} {Q : Boot l → B → Type 0} (f : A → Starting l B)
      (r : Boot l × Reply (StartError E) A)
      → ((s : Boot l) (a : A) → Post Q Whatever (f a s))
      → Post Q Whatever (continue f r)
  then_any f (s, ok a) h = h s a
  then_any f (s, throw e) h = thrown tt

  wire_api-MadeOf :
      (env : ApiEnv) (redis : RedisOptions) (s : Boot l)
      → Post (MadeOf env) Whatever (wire_api l env redis s)
  unfolding wire_api
  wire_api-MadeOf env redis s =
      then_any (λ _. listening l env redis)
        (on_server l (l.server.listen env.api_port)
          (record s { opened = (s.opened ++ redis_connection ∷ []) ++ queue ∷ [] }))
        (λ t _. returned (redis, refl))

  connect_api-MadeOf :
      (env : ApiEnv) (s : Boot l) → Post (MadeOf env) Whatever (connect_api l env s)
  unfolding connect_api
  connect_api-MadeOf env s =
      then_any
        (λ _ t.
          continue (λ _ u. continue (wire_api l env) (redis_of l env.redis_url u))
            (connects l (text "Failed to connect to MongoDB for gateway-api.") t))
        (on_server l l.server.register_raw_body s)
        (λ t _.
          then_any (λ _ u. continue (wire_api l env) (redis_of l env.redis_url u))
            (connects l (text "Failed to connect to MongoDB for gateway-api.") t)
            (λ u _.
              then_any (wire_api l env) (redis_of l env.redis_url u)
                (λ v redis. wire_api-MadeOf env redis v)))

  start_api-MadeOf :
      (variables : Str → Option Str) (s : Boot l)
      → Post
          (λ s' service.
            (env : ApiEnv) × (load_api_env l.schemas variables ≡ some env) × MadeOf env s' service)
          Whatever
          (start_api l variables s)
  unfolding start_api
  start_api-MadeOf variables s = after_env (load_api_env l.schemas variables) refl
    where
      after_env :
          (o : Option ApiEnv)
          → load_api_env l.schemas variables ≡ o
          → Post
              (λ s' service.
                (env : ApiEnv) × (load_api_env l.schemas variables ≡ some env)
                × MadeOf env s' service)
              Whatever
              (continue (connect_api l) (given_or l invalid_environment o s))
      after_env none e = thrown tt
      after_env (some env) e =
          Post-weaken (connect_api-MadeOf env s) (λ s' service made. (env, e, made)) (λ _ _ x. x)

  -- The guard's options of a gateway that has started.
  pub record IsServing (variables : Str → Option Str) (service : ApiService) : Type 0 where
    pub raw_secret : Str
    pub secret_given : variables (text "SIGNING_SECRET") ≡ some raw_secret
    pub secret_nonblank : is_blank raw_secret ≡ false
    pub secret_trimmed : service.guard.signing_secret ≡ trim raw_secret
    pub tolerance : 1 ≤ service.guard.signature_tolerance_seconds
    pub port : (1 ≤ service.port) × (service.port ≤ 65535)

  pub start_api-IsServing :
      (variables : Str → Option Str) (s s' : Boot l) (service : ApiService)
      → IsEnvSchemas l.schemas
      → start_api l variables s ≡ (s', ok service)
      → IsServing variables service
  unfolding api_service
  start_api-IsServing variables s s' service schemas run =
      let (env, loaded, (redis, made)) = Post-ok (start_api-MadeOf variables s) run in
      let accepted = load_api_env-IsApiEnv l.schemas schemas variables env loaded in
      subst (IsServing variables) (sym made) (record {
        raw_secret = accepted.raw_secret;
        secret_given = accepted.secret_given;
        secret_nonblank = accepted.secret_nonblank;
        secret_trimmed = accepted.secret_trimmed;
        tolerance = accepted.tolerance;
        port = accepted.port;
      })

  module _ (variables : Str → Option Str) (s s' : Boot l) (service : ApiService)
      (schemas : IsEnvSchemas l.schemas) (run : start_api l variables s ≡ (s', ok service)) where
    -- A gateway has started, and the signing script makes a request with the environment of the
    -- gateway. The script finds a secret there. If the secret has no white space around it, the clock
    -- of the client is past the first second and the clocks differ by the tolerance of the environment
    -- at most, then the guard of the gateway lets the request through.
    pub start_api-sign_cli :
        (hmac : Hmac) (d : IsDigest hmac) (drawn : Drawn) (secret : Str) (request : Request)
        (now : ℕ)
        → variables (text "SIGNING_SECRET") ≡ some secret
        → trim secret ≡ secret
        → 0 < drawn.now / 1000
        → drawn.now / 1000 < infinity
        → distance (now / 1000) (drawn.now / 1000) ≤ service.guard.signature_tolerance_seconds
        → (event : SignedEventPayload) × (sign_cli hmac (variables (text "SIGNING_SECRET")) drawn
            ≡ some event)
          × (signature_guard hmac service.guard now (sent event request)
              ≡ go (record (sent event request) {
                signature_meta = some (meta_of hmac d (cli_options secret) drawn);
              }))
    unfolding sign_cli
    start_api-sign_cli hmac d drawn secret request now given bare positive finite near =
        let serving = start_api-IsServing variables s s' service schemas run in
        let same : serving.raw_secret ≡ secret =
          some-injective _ _ (sym serving.secret_given ∙ given) in
        let nonblank : is_blank secret ≡ false = ap is_blank (sym same) ∙ serving.secret_nonblank in
        let key : service.guard.signing_secret ≡ secret =
          serving.secret_trimmed ∙ (ap trim same ∙ bare) in
        let made = generate_signed_event hmac (cli_options secret) drawn in
        (
          generate_signed_event hmac (cli_options secret) drawn,
          rw (given, nonblank) refl,
          subst
              (λ (g : SignatureGuardOptions).
                signature_guard hmac g now (sent made request)
                ≡ go (record (sent made request) {
                  signature_meta = some (meta_of hmac d (cli_options secret) drawn);
                }))
              (ap
                (λ k. record {
                  signing_secret = k;
                  signature_tolerance_seconds = service.guard.signature_tolerance_seconds;
                })
                (sym key))
              (signature_guard-generate_signed_event hmac d (cli_options secret) drawn request
                service.guard.signature_tolerance_seconds now nonblank positive finite near),
        )
