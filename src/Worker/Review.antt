-- ===== src/Worker/Review.antt =====
-- gateway-worker/src/repositories/dead-letter-events.repository.ts (findPendingReview, markReviewed,
-- markReplayed): the review of dead letters. The collection is seen through its documents, of which
-- several may be of one event, and given by what its operations do to them.
use fincart_assissment.Common.{
  ℕ, ◌+◌, ◌≤◌, ◌≡◌, ◌⊎◌, inl, inr, refl, true, false, List, [], ◌∷◌, All, length, total, total_one,
  sym, ◌∙◌, if◌then◌else◌, Bool-cases, Replaced, here, there, SameItems, arith,
}
use fincart_assissment.Common.Text.{Str, str_eq}
use fincart_assissment.Effects.{Reply, Action, ◌>>◌}
use fincart_assissment.Effects.Post.{Post, Post-weaken, Post-continue}
use fincart_assissment.Worker.Records.{
  ReviewStatus, reviewed, replayed, is_pending, DeadLetterEventRecord,
}

abbrev pub set_status : ReviewStatus → DeadLetterEventRecord → DeadLetterEventRecord
set_status status d = record d { review_status = status }

-- The documents after an update of one document of an event, if there is one.
pub data OneUpdated (event_id : Str) (change : DeadLetterEventRecord → DeadLetterEventRecord)
    : List DeadLetterEventRecord → List DeadLetterEventRecord → Type 0 where
  of_none :
      {ds : List DeadLetterEventRecord}
      → All (λ d. str_eq d.event_id event_id ≡ false) ds
      → OneUpdated event_id change ds ds
  of_one :
      (d : DeadLetterEventRecord) {ds ds' : List DeadLetterEventRecord}
      → str_eq d.event_id event_id ≡ true
      → Replaced d (change d) ds ds'
      → OneUpdated event_id change ds ds'

abbrev pub unreviewed : List DeadLetterEventRecord → List DeadLetterEventRecord
unreviewed [] = []
unreviewed (d ∷ ds) =
    let rest = unreviewed ds in if is_pending d.review_status then d ∷ rest else rest

abbrev pub ByAge : List DeadLetterEventRecord → Type 0
ByAge [] = Unit
ByAge (d ∷ ds) = All (λ e. d.created_at ≤ e.created_at) ds × ByAge ds

-- `find` by the review status with `sort({ createdAt: 1 })`, and `findOneAndUpdate` by the event.
pub record DeadLetters (E : Type 0) : Type 1 where
  pub State : Type 0
  pub documents : State → List DeadLetterEventRecord
  pub find_pending : State → State × Reply E (List DeadLetterEventRecord)
  pub find_one_and_update :
      Str → (DeadLetterEventRecord → DeadLetterEventRecord) → State → State × Reply E (Unit {0})
  pub find_pending_reads :
      (s : State)
      → Post
          (λ s' found.
            (documents s' ≡ documents s) × SameItems found (unreviewed (documents s)) × ByAge found)
          (λ s' _. documents s' ≡ documents s)
          (find_pending s)
  pub find_one_and_update_writes :
      (event_id : Str) (change : DeadLetterEventRecord → DeadLetterEventRecord) (s : State)
      → Post
          (λ s' _. OneUpdated event_id change (documents s) (documents s'))
          (λ s' _.
            (documents s' ≡ documents s) ⊎ OneUpdated event_id change (documents s) (documents s'))
          (find_one_and_update event_id change s)

module _ {E : Type 0} (letters : DeadLetters E) where
  unfoldable pub find_pending_review : Action letters.State E (List DeadLetterEventRecord)
  find_pending_review = letters.find_pending

  unfoldable pub mark_reviewed : Str → Action letters.State E (Unit {0})
  mark_reviewed event_id = letters.find_one_and_update event_id (set_status reviewed)

  unfoldable pub mark_replayed : Str → Action letters.State E (Unit {0})
  mark_replayed event_id = letters.find_one_and_update event_id (set_status replayed)

Replaced-total :
    (weight : DeadLetterEventRecord → ℕ) {c c' : DeadLetterEventRecord}
    {ds ds' : List DeadLetterEventRecord}
    → Replaced c c' ds ds'
    → total weight ds' + weight c ≡ total weight ds + weight c'
Replaced-total weight (here ds) = omega arith
Replaced-total weight (there d h) = omega (arith, Replaced-total weight h)

abbrev waits : DeadLetterEventRecord → ℕ
waits d = if is_pending d.review_status then 1 else 0

-- The number of pending letters.
abbrev pub waiting : List DeadLetterEventRecord → ℕ
waiting = total waits

length-unreviewed : (ds : List DeadLetterEventRecord) → length (unreviewed ds) ≡ waiting ds
length-unreviewed [] = refl
length-unreviewed (d ∷ ds) = elim (Bool-cases (is_pending d.review_status)) [
  | inl h ↦ rw h (omega (arith, length-unreviewed ds))
  | inr h ↦ rw h (omega (arith, length-unreviewed ds))
]

waits-le : (d : DeadLetterEventRecord) → waits d ≤ 1
waits-le d = elim (Bool-cases (is_pending d.review_status)) [
  | inl h ↦ rw h (omega arith)
  | inr h ↦ rw h (omega arith)
]

-- At most one letter less is pending.
OneUpdated-waiting :
    (event_id : Str) (status : ReviewStatus) {ds ds' : List DeadLetterEventRecord}
    → is_pending status ≡ false
    → OneUpdated event_id (set_status status) ds ds'
    → (waiting ds' ≤ waiting ds) × (waiting ds ≤ waiting ds' + 1)
OneUpdated-waiting event_id status no_more (of_none _) = (omega arith, omega arith)
OneUpdated-waiting event_id status no_more (of_one d _ h) =
    let none_left : waits (set_status status d) ≡ 0 = rw no_more refl in
    (
      omega (arith, Replaced-total waits h, none_left, waits-le d),
      omega (arith, Replaced-total waits h, none_left, waits-le d),
    )

module _ {E : Type 0} (letters : DeadLetters E) where
  listed :
      (s : letters.State) (found : List DeadLetterEventRecord)
      → SameItems found (unreviewed (letters.documents s))
      → length found ≡ waiting (letters.documents s)
  listed s found same =
      sym (total_one found)
      ∙ (same (λ _. 1)
          ∙ (total_one (unreviewed (letters.documents s))
              ∙ length-unreviewed (letters.documents s)))

  -- After an event was marked as replayed the list of the pending letters, the oldest first, is not
  -- longer and is shorter by one at most: where several letters of the event were pending, all but one
  -- of them still are.
  pub find_pending_review-mark_replayed :
      (event_id : Str) (s : letters.State)
      → Post
          (λ _ found.
            (length found ≤ waiting (letters.documents s))
            × (waiting (letters.documents s) ≤ length found + 1)
            × ByAge found)
          (λ _ _. Unit {0})
          ((mark_replayed letters event_id >> find_pending_review letters) s)
  unfolding mark_replayed find_pending_review
  find_pending_review-mark_replayed event_id s =
      Post-continue (λ _. find_pending_review letters)
        (letters.find_one_and_update_writes event_id (set_status replayed) s)
        (λ u _ updated.
          Post-weaken (letters.find_pending_reads u)
            (λ _ found (_, same, oldest).
              let (shorter, by_one) = OneUpdated-waiting event_id replayed refl updated in
              (
                omega (arith, listed u found same, shorter),
                omega (arith, listed u found same, by_one),
                oldest,
              ))
            (λ _ _ _. tt))
        (λ _ _ _. tt)
