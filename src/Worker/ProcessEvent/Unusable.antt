-- ===== src/Worker/ProcessEvent/Unusable.antt =====
-- `processEvent` on an event whose payload lacks a field that it needs, when the services answer
-- (gateway-worker/src/processors/process-event.ts).
use fincart_assissment.Common.{
  ℕ, ◌≡◌, refl, ap, ◌∙◌, ◌⊎◌, inl, inr, false, Bool-cases, Option, none, some, ◌++◌, ◌∷◌, [],
}
use fincart_assissment.Common.Text.{Str, is_blank}
use fincart_assissment.Contracts.{
  Value, null, bool, num, str, arr, obj, Fields, get_field, QueueJobPayload,
}
use fincart_assissment.Effects.{Reply, ok, throw, continue}
use fincart_assissment.Effects.Post.{Post, Post-both, Post-sure, Post-weaken}
use fincart_assissment.Services.{Written, Same}
use fincart_assissment.Worker.Retry.{RetryPolicyConfig, should_retry}
use fincart_assissment.Worker.Classifier.{Thrown, ClassifiedError, classify_error}
use fincart_assissment.Worker.Classifier.Laws.{missing-permanent}
use fincart_assissment.Worker.World.{Platform, World, Act, now}
use fincart_assissment.Worker.Records.{ProcessedEventRecord}
use fincart_assissment.Worker.Repositories.{
  mark_dead_lettered, find_by_idempotency_key, persist_dead_letter, attempt_entry,
}
use fincart_assissment.Worker.Repositories.Views.{Elsewhere, record_of, shipment_of}
use fincart_assissment.Worker.ProcessEvent.{
  missing, field_text, get_payload_field, history_of, send_job, send_letter, dead_letter,
  apply_event, with_lock, process_event, proceed, decide,
}
use fincart_assissment.Worker.ProcessEvent.Outcome.{locked, letter_of, Buried}
use fincart_assissment.Worker.ProcessEvent.Burial.{dead_letter_ends}
use fincart_assissment.Worker.ProcessEvent.Guarantees.{handle_failure-missing}
use fincart_assissment.Worker.ProcessEvent.Reliable.{
  AnswersRecords, TakesLetters, dead_letter-Succeeds,
}
use fincart_assissment.Worker.ProcessEvent.Entering.{entering}
use fincart_assissment.Worker.ProcessEvent.Locked.{untouched}

-- A field of the payload is a text that is not blank, or it is missing.
pub get_payload_field-cases :
    (payload : Fields) (key : Str)
    → ((s : Str) × (get_payload_field payload key ≡ ok s))
      ⊎ (get_payload_field payload key ≡ throw (missing key))
unfolding get_payload_field
get_payload_field-cases payload key = text_cases (get_field payload key)
  where
    text_cases :
        (o : Option Value)
        → ((s : Str) × (field_text key o ≡ ok s)) ⊎ (field_text key o ≡ throw (missing key))
    text_cases none = inr refl
    text_cases (some null) = inr refl
    text_cases (some (bool b)) = inr refl
    text_cases (some (num s)) = inr refl
    text_cases (some (arr vs)) = inr refl
    text_cases (some (obj fs)) = inr refl
    text_cases (some (str s)) = elim (Bool-cases (is_blank s)) [
      | inl blank ↦ inr (rw blank refl)
      | inr given ↦ inl (s, rw given refl)
    ]

gives_up :
    (field : Str) (attempt max_attempts : ℕ)
    → should_retry attempt max_attempts (classify_error (missing field)).classification ≡ false
unfolding should_retry
gives_up field attempt max_attempts = rw (missing-permanent field) refl

module _ (p : Platform) where
  -- A run leaves the collection of shipments as it was.
  abbrev Keeps : {A : Type 0} → World p → World p × Reply Thrown A → Type 0
  Keeps v r = r.0.shipments ≡ v.shipments

  continue-Keeps :
      {A B : Type 0} (v : World p) (f : A → Act p B) (r : World p × Reply Thrown A)
      → Keeps v r
      → ((a : A) (u : World p) → Keeps u (f a u))
      → Keeps v (continue f r)
  continue-Keeps v f (u, ok a) h k = k a u ∙ h
  continue-Keeps v f (u, throw e) h k = h

  send_letter-Keeps :
      (payload : QueueJobPayload) (attempt : ℕ) (classified : ClassifiedError)
      (existing : Option ProcessedEventRecord) (v : World p)
      → Keeps v (send_letter p payload attempt classified existing v)
  unfolding persist_dead_letter
  send_letter-Keeps payload attempt classified existing v =
      let t = (p.host.now v.clock).1 in
      let history =
        history_of existing ++ attempt_entry classified.code classified.message attempt t ∷ [] in
      continue-Keeps v (λ _ u. continue (send_job p payload attempt classified history) (now p u))
        (persist_dead_letter p (letter_of payload attempt classified history)
          (record v { clock = (p.host.now v.clock).0 }))
        refl (λ _ u. refl)

  dead_letter-Keeps :
      (payload : QueueJobPayload) (attempt : ℕ) (classified : ClassifiedError) (v : World p)
      → Keeps v (dead_letter p payload attempt classified v)
  unfolding dead_letter mark_dead_lettered find_by_idempotency_key
  dead_letter-Keeps payload attempt classified v =
      let key = payload.idempotency_key in
      continue-Keeps v
        (λ _ u.
          continue (send_letter p payload attempt classified) (find_by_idempotency_key p key u))
        (mark_dead_lettered p key v) (continue-Keeps v (λ _ u. (u, ok tt)) _ refl (λ _ u. refl))
        (λ _ u.
          continue-Keeps u (send_letter p payload attempt classified)
            (find_by_idempotency_key p key u) refl
            (λ existing x. send_letter-Keeps payload attempt classified existing x))

module _ (p : Platform) (reliable : AnswersRecords p) (takes : TakesLetters p)
    (payload : QueueJobPayload) (config : RetryPolicyConfig) (w : World p)
    (is_proceed : decide (record_of p w payload.idempotency_key) ≡ proceed) (field : Str)
    (fails : (v : World p) → apply_event p payload v ≡ (v, throw (missing field))) where
  -- The event was dead-lettered, and no shipment has changed.
  abbrev pub Rejected : World p → Type 0
  Rejected w' = Buried p payload config w w' × Same (shipment_of p w) (shipment_of p w')

  with_lock-Rejected :
      (seen locked_at : ℕ) (v : World p)
      → Written
          (record_of p w)
          (record_of p v)
          payload.idempotency_key
          (some (locked p payload config w seen locked_at))
      → Elsewhere p w v
      → Post
          (λ v' _. Rejected v')
          (λ _ _. ⊥)
          (with_lock p payload config (some (locked p payload config w seen locked_at)) v)
  unfolding with_lock
  with_lock-Rejected seen locked_at v records elsewhere =
      let lock = locked p payload config w seen locked_at in
      let classified = classify_error (missing field) in
      let held = untouched p payload config w is_proceed seen locked_at v records elsewhere in
      rw (fails v, handle_failure-missing p payload config lock.attempt_count field)
        (Post-weaken
          (Post-both
            (Post-sure
              (dead_letter_ends p payload config w seen locked_at (missing field) v held
                (gives_up field lock.attempt_count config.max_attempts))
              (dead_letter-Succeeds p reliable takes payload lock.attempt_count classified v))
            (dead_letter-Keeps p payload lock.attempt_count classified v))
          (λ v' _ (buried, kept).
            (buried, λ j. ap (λ s. p.active_shipments.view s j) kept ∙ elsewhere.same_shipments j))
          (λ _ _ (x, _). x))

  pub process_event-Rejected :
      Post (λ w' _. Rejected w') (λ _ _. ⊥) (process_event p payload config w)
  process_event-Rejected = entering p reliable payload config w is_proceed with_lock-Rejected
