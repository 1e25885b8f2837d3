-- ===== src/Api/Ingestion/Route.antt =====
-- `POST /v1/events/courier` as a whole: the guard, then the controller.
use fincart_assissment.Common.{
  ℕ, ◌≡◌, ◌≢◌, refl, sym, ap, ◌⊎◌, inl, inr, Option, some, [], ◌∷◌, ◌++◌, false,
}
use mathlib.Core.Option.{some-injective}
use mathlib.Core.Path.{subst}
use fincart_assissment.Common.Text.{is_blank}
use fincart_assissment.Contracts.{CourierEvent, SignatureMeta}
use fincart_assissment.Effects.{return}
use fincart_assissment.Effects.Post.{Post, returned, Post-continue, Post-weaken}
use fincart_assissment.Hmac.{Buffer, Hmac, normalized, to_hex}
use fincart_assissment.Hmac.Verify.{IsDigest, verify_hmac_signature_iff}
use fincart_assissment.Api.Request.{Request, Response, get_trace_id, buffer}
use fincart_assissment.Api.Validator.{Zod, validate_courier_event}
use fincart_assissment.Api.Guard.{SignatureGuardOptions, Check, answer, crash, go, signature_guard}
use fincart_assissment.Api.Guard.Decision.{Admits, signature_guard_iff, options_for}
use fincart_assissment.Api.Guard.Refusals.{IsRefusal, Refuses, signature_guard-Refuses}
use fincart_assissment.Api.Ingestion.{Intake, Stores, job_for, after_guard, ingestion_route}
use fincart_assissment.Api.Ingestion.Outcome.{
  queue_of, Handled, invalid_body, no_metadata, enqueued, unavailable, ingestion_controller_ends,
}

module _ {E : Type 0} (i : Intake E) (hmac : Hmac) (options : SignatureGuardOptions) (z : Zod)
    (guarded_at received_at : ℕ) (request : Request) (s : Stores i) where
  -- The ends of a request: the guard's refusal, with nothing written, or the controller's end on
  -- the request that the guard let through.
  pub data RouteEnd (s' : Stores i) (o : Option Response) : Type 0 where
    refused :
        (r : Response)
        → signature_guard hmac options guarded_at request ≡ answer r
        → IsRefusal (get_trace_id request) r
        → o ≡ some r
        → s' ≡ s
        → RouteEnd s' o
    handled :
        (meta : SignatureMeta) (r : Response)
        → Admits hmac options guarded_at request meta
        → o ≡ some r
        → Handled i z received_at (record request { signature_meta = some meta }) s s' r
        → RouteEnd s' o

  after_guard_ends :
      (c : Check Request)
      → signature_guard hmac options guarded_at request ≡ c
      → Refuses (get_trace_id request) c
      → Post RouteEnd (λ _ _. ⊥) (after_guard i z received_at c s)
  unfolding after_guard
  after_guard_ends (answer r) e refusal = returned (refused r e refusal refl refl)
  after_guard_ends crash e refusal = absurd refusal
  after_guard_ends (go request') e refusal =
      let (meta, a, same) = (signature_guard_iff hmac options guarded_at request request').0 e in
      rw same (
        Post-continue (λ r. return (some r))
          (ingestion_controller_ends i z received_at (record request { signature_meta = some meta })
            s)
          (λ s' r h. returned (handled meta r a refl h)) (λ _ _ x. x))

  -- A request never ends by an exception. Either the guard answered it with a refusal and nothing
  -- was written to any store, or all the conditions of the guard hold and the controller ended in
  -- one of its four ways, with the metadata of the guard.
  pub ingestion_route_ends :
      Post RouteEnd (λ _ _. ⊥) (ingestion_route i hmac options z guarded_at received_at request s)
  unfolding ingestion_route
  ingestion_route_ends =
      after_guard_ends (signature_guard hmac options guarded_at request) refl
        (signature_guard-Refuses hmac options guarded_at request)

  -- A job that a request put into the queue: it is made of the request's validated body, and the
  -- signature in it is, trimmed and in lower case, the keyed hash of the raw body.
  pub record Authentic (s' : Stores i) : Type 0 where
    pub event : CourierEvent
    pub meta : SignatureMeta
    pub raw : Buffer
    pub body_valid : validate_courier_event z request.body ≡ some event
    pub raw_given : request.raw_body ≡ buffer raw
    pub not_empty : raw ≢ []
    pub secret_set : is_blank options.signing_secret ≡ false
    pub signed :
        normalized meta.signature_header ≡ to_hex (hmac meta.algorithm options.signing_secret raw)
    pub added :
        queue_of i s'
        ≡ queue_of i s
          ++ job_for event meta
              (get_trace_id (record request { signature_meta = some meta }))
              received_at
            ∷ []

  module _ (d : IsDigest hmac) where
    authentic :
        (meta : SignatureMeta)
        → Admits hmac options guarded_at request meta
        → (event : CourierEvent) → validate_courier_event z request.body ≡ some event
        → (s' : Stores i)
        → queue_of i s'
          ≡ queue_of i s
            ++ job_for event meta
                (get_trace_id (record request { signature_meta = some meta }))
                received_at
              ∷ []
        → Authentic s'
    authentic meta a event valid s' added =
        let (secret, not_empty, signed) =
          (verify_hmac_signature_iff hmac d (
              options_for hmac options guarded_at request a.body meta.algorithm
                meta.signature_header)).0
            a.authentic in
        record {
          event = event;
          meta = meta;
          raw = a.body;
          body_valid = valid;
          raw_given = a.body_given;
          not_empty = not_empty;
          secret_set = secret;
          signed = signed;
          added = added;
        }

    job_meta :
        (event : CourierEvent) (meta meta' : SignatureMeta) (s' : Stores i)
        → some meta ≡ some meta'
        → queue_of i s'
          ≡ queue_of i s
            ++ job_for event meta'
                (get_trace_id (record request { signature_meta = some meta }))
                received_at
              ∷ []
        → queue_of i s'
          ≡ queue_of i s
            ++ job_for event meta
                (get_trace_id (record request { signature_meta = some meta }))
                received_at
              ∷ []
    job_meta event meta meta' s' given added =
        let trace_id = get_trace_id (record request { signature_meta = some meta }) in
        subst (λ m. queue_of i s' ≡ queue_of i s ++ job_for event m trace_id received_at ∷ [])
          (sym (some-injective _ _ given)) added

    Handled-Authentic :
        (meta : SignatureMeta) (r : Response) (s' : Stores i)
        → Admits hmac options guarded_at request meta
        → Handled i z received_at (record request { signature_meta = some meta }) s s' r
        → (queue_of i s' ≡ queue_of i s) ⊎ Authentic s'
    Handled-Authentic meta r s' a (invalid_body v e same audit) = inl (ap i.queue.entries same)
    Handled-Authentic meta r s' a (no_metadata event v none_given e same audit) =
        inl (ap i.queue.entries same)
    Handled-Authentic meta r s' a (enqueued event meta' v given e (taken, after, added) audit) =
        inr (authentic meta a event v s' (job_meta event meta meta' s' given added))
    Handled-Authentic meta r s' a
          (unavailable event meta' records v given e (threw, after, perhaps) audit noted) =
        elim perhaps [
          | inl same ↦ inl same
          | inr added ↦ inr (authentic meta a event v s' (job_meta event meta meta' s' given added))
        ]

    -- Whatever a request is and whatever the queue and the audit collection do, the queue stays as
    -- it was or grows by one job, which is made of the validated body of a request whose raw body
    -- is not empty and was signed with the secret, which is not blank.
    pub ingestion_route-Authentic :
        Post
          (λ s' _. (queue_of i s' ≡ queue_of i s) ⊎ Authentic s')
          (λ _ _. ⊥)
          (ingestion_route i hmac options z guarded_at received_at request s)
    ingestion_route-Authentic =
        Post-weaken ingestion_route_ends (λ s' o end. end_authentic s' o end) (λ _ _ x. x)
      where
        end_authentic :
            (s' : Stores i) (o : Option Response)
            → RouteEnd s' o
            → (queue_of i s' ≡ queue_of i s) ⊎ Authentic s'
        end_authentic s' o (refused r e refusal is_r same) =
            inl (ap (λ (x : Stores i). queue_of i x) same)
        end_authentic s' o (handled meta r a is_r h) = Handled-Authentic meta r s' a h
