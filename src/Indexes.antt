-- ===== src/Indexes.antt =====
-- scripts/db/init-indexes.ts (ensureIndexes): the indexes of the three collections. The first of the
-- processed events and of the shipments are what a view by keys relies on. Logging is left out.
pub mod Creation
use fincart_assissment.Common.{
  ℕ, ◌≡◌, ◌⊎◌, Bool, true, false, Option, none, some, List, [], ◌∷◌, ◌++◌, String,
}
use fincart_assissment.Common.Text.{Str, text}
use fincart_assissment.Effects.{
  Reply, ok, throw, Action, return, raise, ◌>>=◌, ◌>>◌, try_catch, finally,
}
use fincart_assissment.Effects.Post.{Post}

pub data CollectionName : Type 0 where
  processed_events active_shipments dead_letter_events : CollectionName

-- The keys are all ascending. `expire_after_seconds` is that of an index that lets documents expire.
pub record Index : Type 0 where
  pub collection : CollectionName
  pub keys : List Str
  pub unique : Bool
  pub expire_after_seconds : Option ℕ
  pub name : Str

abbrev index_on : CollectionName → List Str → String → Index
index_on collection keys name = record {
  collection = collection;
  keys = keys;
  unique = false;
  expire_after_seconds = none;
  name = text name;
}

abbrev unique_on : CollectionName → String → String → Index
unique_on collection key name = record {
  collection = collection;
  keys = text key ∷ [];
  unique = true;
  expire_after_seconds = none;
  name = text name;
}

abbrev expiring : CollectionName → Index
expiring collection = record {
  collection = collection;
  keys = text "expiresAt" ∷ [];
  unique = false;
  expire_after_seconds = some 0;
  name = text "ttl_expiresAt";
}

-- In the order of the script.
abbrev pub all_indexes : List Index
all_indexes =
    unique_on processed_events "idempotencyKey" "ux_idempotency_key"
    ∷ index_on processed_events (text "status" ∷ text "updatedAt" ∷ []) "ix_status_updatedAt"
    ∷ expiring processed_events
    ∷ unique_on active_shipments "shipmentId" "ux_shipment_id"
    ∷ index_on active_shipments (text "orderId" ∷ []) "ix_order_id"
    ∷ index_on active_shipments (text "currentState" ∷ text "updatedAt" ∷ [])
        "ix_currentState_updatedAt"
    ∷ index_on dead_letter_events (text "reviewStatus" ∷ text "createdAt" ∷ [])
        "ix_reviewStatus_createdAt"
    ∷ index_on dead_letter_events (text "createdAt" ∷ []) "ix_createdAt"
    ∷ expiring dead_letter_events
    ∷ []

-- An index of the list.
abbrev pub Has : Index → List Index → Type 0
Has index [] = ⊥
Has index (other ∷ indexes) = (other ≡ index) ⊎ Has index indexes

-- MongoDB's client: `created` are the indexes that exist. Creating an index that exists changes nothing.
pub record Database (E : Type 0) : Type 1 where
  pub State : Type 0
  pub created : State → List Index
  pub connect : State → State × Reply E (Unit {0})
  pub create_index : Index → State → State × Reply E (Unit {0})
  pub close : State → State × Reply E (Unit {0})
  pub connect_keeps :
      (s : State)
      → Post (λ s' _. created s' ≡ created s) (λ s' _. created s' ≡ created s) (connect s)
  pub create_index_has :
      (index : Index) (s : State)
      → Post
          (λ s' _.
            ((created s' ≡ created s) × Has index (created s))
            ⊎ (created s' ≡ created s ++ index ∷ []))
          (λ s' _. (created s' ≡ created s) ⊎ (created s' ≡ created s ++ index ∷ []))
          (create_index index s)
  pub close_keeps :
      (s : State) → Post (λ s' _. created s' ≡ created s) (λ s' _. created s' ≡ created s) (close s)

module _ {E : Type 0} (db : Database E) where
  -- One of the nine `try` statements.
  unfoldable pub try_create_index : Index → Action db.State E (Unit {0})
  try_create_index index = try_catch (db.create_index index) (λ _. return tt)

  unfoldable pub create_all : List Index → Action db.State E (Unit {0})
  unfolding try_create_index
  create_all [] = return tt
  create_all (index ∷ indexes) = try_create_index index >> create_all indexes

  unfoldable pub ensure_indexes : Action db.State E (Unit {0})
  unfolding create_all
  ensure_indexes s = finally db.close ((db.connect >> create_all all_indexes) s)

  abbrev pub exit_code : db.State × Reply E (Unit {0}) → ℕ
  exit_code (s, ok _) = 0
  exit_code (s, throw e) = 1

  -- The exit code of the script.
  unfoldable pub init_indexes : db.State → ℕ
  unfolding ensure_indexes
  init_indexes s = exit_code (ensure_indexes s)
