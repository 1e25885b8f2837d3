-- ===== src/Services.antt =====
-- What the gateway uses and does not implement: MongoDB's collections and BullMQ's queues, which
-- throw values of a type `E`. A collection with a unique index is seen through the document that each
-- key has (scripts/db/init-indexes.ts makes the indexes). An operation that throws may have been
-- carried out all the same, since the acknowledgement of a write can be lost.
use fincart_assissment.Common.{
  Bool, Option, none, some, List, [], ◌∷◌, ◌++◌, ◌≡◌, ◌⊎◌, if◌then◌else◌,
}
use fincart_assissment.Common.Text.{Str, str_eq}
use fincart_assissment.Effects.{Reply}
use fincart_assissment.Effects.Post.{Post}

-- The document of a key after an update of the documents that pass a filter.
abbrev pub updated {ℓ} : {D : Type ℓ} → (D → Bool) → (D → D) → Option D → Option D
updated filter change none = none
updated filter change (some d) = if filter d then some (change d) else some d

-- What `findOneAndUpdate` with `returnDocument: 'after'` returns.
abbrev pub found {ℓ} : {D : Type ℓ} → (D → Bool) → (D → D) → Option D → Option D
found filter change none = none
found filter change (some d) = if filter d then some (change d) else none

-- The document of a key after an update with `upsert: true` and a filter on the key alone.
abbrev pub upserted {ℓ} : {D : Type ℓ} → (D → D) → D → Option D → Option D
upserted change fresh none = some fresh
upserted change fresh (some d) = some (change d)

-- A view where only one key has a new document.
abbrev pub Written : {D : Type 0} → (Str → Option D) → (Str → Option D) → Str → Option D → Type 0
Written before after key document =
    (j : Str) → after j ≡ (if str_eq j key then document else before j)

abbrev pub Same : {D : Type 0} → (Str → Option D) → (Str → Option D) → Type 0
Same before after = (j : Str) → after j ≡ before j

pub record Collection (E D : Type 0) : Type 1 where
  pub State : Type 0
  pub view : State → Str → Option D
  pub find_one : Str → State → State × Reply E (Option D)
  pub update : Str → (D → Bool) → (D → D) → State → State × Reply E (Option D)
  pub upsert : Str → (D → D) → D → State → State × Reply E (Unit {0})
  pub find_one_reads :
      (key : Str) (s : State)
      → Post
          (λ s' d. Same (view s) (view s') × (d ≡ view s key))
          (λ s' e. Same (view s) (view s'))
          (find_one key s)
  pub update_writes :
      (key : Str) (filter : D → Bool) (change : D → D) (s : State)
      → Post
          (λ s' d.
            Written (view s) (view s') key (updated filter change (view s key))
            × (d ≡ found filter change (view s key)))
          (λ s' e.
            Same (view s) (view s')
            ⊎ Written (view s) (view s') key (updated filter change (view s key)))
          (update key filter change s)
  pub upsert_writes :
      (key : Str) (change : D → D) (fresh : D) (s : State)
      → Post
          (λ s' _. Written (view s) (view s') key (upserted change fresh (view s key)))
          (λ s' e.
            Same (view s) (view s')
            ⊎ Written (view s) (view s') key (upserted change fresh (view s key)))
          (upsert key change fresh s)

-- A collection or queue that is only added to.
pub record Journal (E D : Type 0) : Type 1 where
  pub State : Type 0
  pub entries : State → List D
  pub add : D → State → State × Reply E (Unit {0})
  pub add_appends :
      (d : D) (s : State)
      → Post
          (λ s' _. entries s' ≡ entries s ++ d ∷ [])
          (λ s' e. (entries s' ≡ entries s) ⊎ (entries s' ≡ entries s ++ d ∷ []))
          (add d s)
