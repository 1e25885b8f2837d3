-- ===== src/Api/Ingestion/Outcome.antt =====
-- What an ingestion request leads to: the reply, the job in the queue and the audit record.
use fincart_assissment.Common.{
  ℕ, ◌≡◌, refl, sym, ap, ◌⊎◌, inr, Option, none, some, List, [], ◌∷◌, ◌++◌,
}
use mathlib.Core.Path.{subst}
use fincart_assissment.Common.Text.{Str, text}
use fincart_assissment.Contracts.{
  CourierEvent, SignatureMeta, QueueJobPayload, invalid_payload, intake_unavailable,
}
use fincart_assissment.Effects.{Reply, ok, throw, return, recover}
use fincart_assissment.Effects.Post.{
  Post, returned, thrown, Post-continue, Post-recover, Post-ok, Post-throw, Succeeds,
}
use fincart_assissment.Api.Request.{Request, Response, rejected, accepted, get_trace_id}
use fincart_assissment.Api.Validator.{Zod, validate_courier_event}
use fincart_assissment.Api.Ingestion.{
  Intake, Stores, IngestionRecord, was_accepted, was_rejected, enqueue_failed, audit_rejected,
  audit_event, job_for, safe_insert, enqueue_event, report_unavailable, enqueue_or_report, accept,
  with_meta, with_body, ingestion_controller,
}

module _ {E : Type 0} (i : Intake E) where
  abbrev pub queue_of : Stores i → List QueueJobPayload
  queue_of s = i.queue.entries s.queued

  abbrev pub audit_of : Stores i → List IngestionRecord
  audit_of s = i.ingestion_records.entries s.records

  -- Adding an audit record was tried, once: the collection is as the try left it, with the record or,
  -- if the try threw, perhaps without.
  abbrev pub Audited :
      IngestionRecord → i.ingestion_records.State → i.ingestion_records.State → Type 0
  Audited r before after =
      (after ≡ (i.ingestion_records.add r before).0)
      × ((i.ingestion_records.entries after ≡ i.ingestion_records.entries before)
          ⊎ (i.ingestion_records.entries after ≡ i.ingestion_records.entries before ++ r ∷ []))

  -- The queue was asked to take the job, and did.
  abbrev pub Took : QueueJobPayload → i.queue.State → i.queue.State → Type 0
  Took job before after =
      Succeeds (i.queue.add job before)
      × (after ≡ (i.queue.add job before).0)
      × (i.queue.entries after ≡ i.queue.entries before ++ job ∷ [])

  -- It was asked, and threw; the job may be there all the same.
  abbrev pub Threw : QueueJobPayload → i.queue.State → i.queue.State → Type 0
  Threw job before after =
      (¬ Succeeds (i.queue.add job before))
      × (after ≡ (i.queue.add job before).0)
      × ((i.queue.entries after ≡ i.queue.entries before)
          ⊎ (i.queue.entries after ≡ i.queue.entries before ++ job ∷ []))

  pub safe_insert_ends :
      (r : IngestionRecord) (s : Stores i)
      → Post
          (λ s' _. (s'.queued ≡ s.queued) × Audited r s.records s'.records)
          (λ _ _. ⊥)
          (safe_insert i r s)
  unfolding safe_insert
  safe_insert_ends r s =
      lift (i.ingestion_records.add r s.records) refl (i.ingestion_records.add_appends r s.records)
    where
      lift :
          (x : i.ingestion_records.State × Reply E (Unit {0}))
          → x ≡ i.ingestion_records.add r s.records
          → Post
              (λ t _. i.ingestion_records.entries t ≡ audit_of s ++ r ∷ [])
              (λ t _.
                (i.ingestion_records.entries t ≡ audit_of s)
                ⊎ (i.ingestion_records.entries t ≡ audit_of s ++ r ∷ []))
              x
          → Post
              (λ s' _. (s'.queued ≡ s.queued) × Audited r s.records s'.records)
              (λ _ _. ⊥)
              (recover (λ _. return tt) (record s { records = x.0 }, x.1))
      lift (t, ok u) e h =
          returned {w = record s { records = t }} (refl, (ap (λ y. y.0) e, inr (Post-ok h refl)))
      lift (t, throw x) e h =
          returned {w = record s { records = t }} (refl, (ap (λ y. y.0) e, Post-throw h refl))

  pub enqueue_event_ends :
      (job : QueueJobPayload) (s : Stores i)
      → Post
          (λ s' _. (s'.records ≡ s.records) × Took job s.queued s'.queued)
          (λ s' _. (s'.records ≡ s.records) × Threw job s.queued s'.queued)
          (enqueue_event i job s)
  unfolding enqueue_event
  enqueue_event_ends job s = lift (i.queue.add job s.queued) refl (i.queue.add_appends job s.queued)
    where
      lift :
          (x : i.queue.State × Reply E (Unit {0}))
          → x ≡ i.queue.add job s.queued
          → Post
              (λ t _. i.queue.entries t ≡ queue_of s ++ job ∷ [])
              (λ t _.
                (i.queue.entries t ≡ queue_of s) ⊎ (i.queue.entries t ≡ queue_of s ++ job ∷ []))
              x
          → Post
              (λ s' _. (s'.records ≡ s.records) × Took job s.queued s'.queued)
              (λ s' _. (s'.records ≡ s.records) × Threw job s.queued s'.queued)
              (record s { queued = x.0 }, x.1)
      lift (t, ok u) e h =
          returned {w = record s { queued = t }}
            (refl, (subst (λ y. Succeeds y) e tt, ap (λ y. y.0) e, Post-ok h refl))
      lift (t, throw x) e h = thrown {w = record s { queued = t }} (
        refl,
        (λ taken. subst (λ y. Succeeds y) (sym e) taken, ap (λ y. y.0) e, Post-throw h refl),
      )

  module _ (z : Zod) (received_at : ℕ) (request : Request) (s : Stores i) where
    abbrev trace_id : Str
    trace_id = get_trace_id request

    -- The four ends of the controller.
    pub data Handled (s' : Stores i) (r : Response) : Type 0 where
      invalid_body :
          validate_courier_event z request.body ≡ none
          → r ≡ rejected 400 invalid_payload (text "Request payload failed validation") trace_id
          → s'.queued ≡ s.queued
          → Audited
              (audit_rejected trace_id (text "Payload validation failed") received_at)
              s.records
              s'.records
          → Handled s' r
      no_metadata :
          (event : CourierEvent)
          → validate_courier_event z request.body ≡ some event
          → request.signature_meta ≡ none
          → r ≡ rejected 400 invalid_payload (text "Signature metadata is missing") trace_id
          → s'.queued ≡ s.queued
          → Audited
              (audit_event was_rejected
                (some (text "Signature metadata unavailable"))
                trace_id
                event
                received_at)
              s.records
              s'.records
          → Handled s' r
      enqueued :
          (event : CourierEvent) (meta : SignatureMeta)
          → validate_courier_event z request.body ≡ some event
          → request.signature_meta ≡ some meta
          → r ≡ accepted 202 event.event_id event.idempotency_key trace_id received_at
          → Took (job_for event meta trace_id received_at) s.queued s'.queued
          → Audited (audit_event was_accepted none trace_id event received_at) s.records s'.records
          → Handled s' r
      unavailable :
          (event : CourierEvent) (meta : SignatureMeta) (audit : i.ingestion_records.State)
          → validate_courier_event z request.body ≡ some event
          → request.signature_meta ≡ some meta
          → r
            ≡ rejected 503 intake_unavailable (text "Event intake temporarily unavailable") trace_id
          → Threw (job_for event meta trace_id received_at) s.queued s'.queued
          → Audited (audit_event was_accepted none trace_id event received_at) s.records audit
          → Audited
              (audit_event enqueue_failed
                (some (text "Queue enqueue failed"))
                trace_id
                event
                received_at)
              audit
              s'.records
          → Handled s' r

    enqueue_or_report_ends :
        (event : CourierEvent) (meta : SignatureMeta)
        → validate_courier_event z request.body ≡ some event
        → request.signature_meta ≡ some meta
        → (s₁ : Stores i) → s₁.queued ≡ s.queued
        → Audited (audit_event was_accepted none trace_id event received_at) s.records s₁.records
        → Post Handled (λ _ _. ⊥) (enqueue_or_report i event meta trace_id received_at s₁)
    unfolding enqueue_or_report report_unavailable
    enqueue_or_report_ends event meta valid given s₁ same audit =
        let job = job_for event meta trace_id received_at in
        Post-recover (λ _. report_unavailable i event trace_id received_at)
          (Post-continue
            (λ _. return (accepted 202 event.event_id event.idempotency_key trace_id received_at))
            (enqueue_event_ends job s₁)
            (λ s₂ _ (same_audit, grown). returned (
              enqueued event meta valid given refl (rw same at grown) (rw (← same_audit) at audit)))
            (λ s₂ _ e. e))
          (λ s₂ r h. h)
          (λ s₂ _ (same_audit, perhaps).
            Post-continue
              (λ _. return (
                rejected 503 intake_unavailable (text "Event intake temporarily unavailable")
                  trace_id))
              (safe_insert_ends
                (audit_event enqueue_failed (some (text "Queue enqueue failed")) trace_id event
                  received_at)
                s₂)
              (λ s₃ _ (still, noted). returned (
                unavailable event meta s₂.records valid given refl (rw still (rw same at perhaps))
                  (rw same_audit audit) noted))
              (λ _ _ x. x))

    accept_ends :
        (event : CourierEvent) (meta : SignatureMeta)
        → validate_courier_event z request.body ≡ some event
        → request.signature_meta ≡ some meta
        → Post Handled (λ _ _. ⊥) (accept i event meta trace_id received_at s)
    unfolding accept
    accept_ends event meta valid given =
        Post-continue (λ _. enqueue_or_report i event meta trace_id received_at)
          (safe_insert_ends (audit_event was_accepted none trace_id event received_at) s)
          (λ s₁ _ (same, audit). enqueue_or_report_ends event meta valid given s₁ same audit)
          (λ _ _ x. x)

    meta_ends :
        (event : CourierEvent)
        → validate_courier_event z request.body ≡ some event
        → (meta : Option SignatureMeta) → request.signature_meta ≡ meta
        → Post Handled (λ _ _. ⊥) (with_meta i event meta trace_id received_at s)
    unfolding with_meta
    meta_ends event valid none e =
        Post-continue
          (λ _.
            return (rejected 400 invalid_payload (text "Signature metadata is missing") trace_id))
          (safe_insert_ends
            (audit_event was_rejected (some (text "Signature metadata unavailable")) trace_id event
              received_at)
            s)
          (λ s₁ _ (same, audit). returned (no_metadata event valid e refl same audit)) (λ _ _ x. x)
    meta_ends event valid (some meta) e = accept_ends event meta valid e

    body_ends :
        (event : Option CourierEvent)
        → validate_courier_event z request.body ≡ event
        → Post Handled (λ _ _. ⊥) (with_body i event request.signature_meta trace_id received_at s)
    unfolding with_body
    body_ends none e =
        Post-continue
          (λ _.
            return
              (rejected 400 invalid_payload (text "Request payload failed validation") trace_id))
          (safe_insert_ends (audit_rejected trace_id (text "Payload validation failed") received_at)
            s)
          (λ s₁ _ (same, audit). returned (invalid_body e refl same audit)) (λ _ _ x. x)
    body_ends (some event) e = meta_ends event e request.signature_meta refl

    -- The controller never throws, whatever the queue and the audit collection do. If the body is
    -- valid and the metadata is there, the queue is asked once to take the job: if it takes it, the
    -- answer is 202, and if it throws, 503, after it was tried to add an audit record of the failure to
    -- the one of the acceptance. If the body is not valid or the metadata is missing, the answer is
    -- 400, the queue is not asked, and it was tried to add an audit record of that. A try to add an
    -- audit record that throws changes nothing else.
    pub ingestion_controller_ends :
        Post Handled (λ _ _. ⊥) (ingestion_controller i z received_at request s)
    unfolding ingestion_controller
    ingestion_controller_ends = body_ends (validate_courier_event z request.body) refl
