-- ===== src/Worker/Backlog/Account.antt =====
-- How the stores of the worker stay as a ledger has them (gateway-worker/src/repositories/).
use fincart_assissment.Common.{
  ℕ, ◌≡◌, refl, ap, ◌∙◌, inl, inr, true, Bool-cases, Option, none, some, List, [], ◌∷◌, ◌++◌, map,
}
use mathlib.Core.List.{map-append}
use fincart_assissment.Common.Text.{Str, str_eq}
use fincart_assissment.Services.{Same, Written, upserted}
use fincart_assissment.Worker.Retry.{RetryPolicyConfig}
use fincart_assissment.Worker.World.{Platform, World}
use fincart_assissment.Worker.Records.{ProcessedEventRecord, ActiveShipmentRecord}
use fincart_assissment.Worker.Repositories.{ShipmentUpdate, set_shipment, new_shipment}
use fincart_assissment.Worker.Repositories.Views.{record_of, shipment_of, dead_letters_of, dlq_of}
use fincart_assissment.Worker.ProcessEvent.{decide}
use fincart_assissment.Worker.Backlog.Abstract.{Ledger, post, close}
use fincart_assissment.Worker.Backlog.{is_skip, state_of, Represents}

-- One more entry, and one more key.
pub one_more_key :
    {A : Type 0} (f : A → Str) (xs ys : List A) (x : A) (keys : List Str)
    → ys ≡ xs ++ x ∷ []
    → map f xs ≡ keys
    → map f ys ≡ keys ++ f x ∷ []
one_more_key f xs ys x keys grown h =
    ap (map f) grown ∙ map-append f xs (x ∷ []) ∙ ap (λ ks. ks ++ f x ∷ []) h

module _ (p : Platform) (config : RetryPolicyConfig) where
  pub state_of-upserted :
      (r : ShipmentUpdate) (now : ℕ) (o : Option ActiveShipmentRecord)
      → state_of (upserted (set_shipment r now) (new_shipment r now) o) ≡ some r
  state_of-upserted r now none = refl
  state_of-upserted r now (some d) = refl

  module _ (w w' : World p) (l : Ledger) (h : Represents p config w l) where
    pub Represents-Same :
        Same (record_of p w) (record_of p w')
        → Same (shipment_of p w) (shipment_of p w')
        → dead_letters_of p w' ≡ dead_letters_of p w
        → dlq_of p w' ≡ dlq_of p w
        → Represents p config w' l
    Represents-Same records shipments letters jobs = record {
      done = λ key. ap (λ o. is_skip (decide o)) (records key) ∙ h.done key;
      states = λ id. ap state_of (shipments id) ∙ h.states id;
      given_up = ap (map (λ d. d.idempotency_key)) letters ∙ h.given_up;
      queued = ap (map (λ j. j.idempotency_key)) jobs ∙ h.queued;
    }

    -- A record that was closed.
    pub done-close :
        (key : Str) (d : ProcessedEventRecord)
        → is_skip (decide (some d)) ≡ true
        → Written (record_of p w) (record_of p w') key (some d)
        → (other : Str) → is_skip (decide (record_of p w' other)) ≡ close key l.is_done other
    done-close key d skips written other = elim (Bool-cases (str_eq other key)) [
      | inl same ↦ rw (written other, same) skips
      | inr different ↦ rw (written other, different) (h.done other)
    ]

    pub states-post :
        (r : ShipmentUpdate) (now : ℕ)
        → Written
            (shipment_of p w)
            (shipment_of p w')
            r.shipment_id
            (upserted (set_shipment r now) (new_shipment r now) (shipment_of p w r.shipment_id))
        → (id : Str) → state_of (shipment_of p w' id) ≡ post r l.states id
    states-post r now written id = elim (Bool-cases (str_eq id r.shipment_id)) [
      | inl same ↦ rw (written id, same) (state_of-upserted r now (shipment_of p w r.shipment_id))
      | inr different ↦ rw (written id, different) (h.states id)
    ]
