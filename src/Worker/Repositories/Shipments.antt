-- ===== src/Worker/Repositories/Shipments.antt =====
-- What `upsertShipment` does to what can be seen of the stores.
use fincart_assissment.Common.{ℕ, ◌≡◌, ◌∙◌, refl, Option}
use fincart_assissment.Common.Text.Laws.{str_eq_refl}
use fincart_assissment.Effects.{Reply, ◌>>◌}
use fincart_assissment.Effects.Post.{Post, returned, thrown, Post-weaken, Post-continue}
use fincart_assissment.Worker.Classifier.{Thrown}
use fincart_assissment.Services.{upserted, Written, Same}
use fincart_assissment.Worker.World.{Platform, World}
use fincart_assissment.Worker.Repositories.{
  ShipmentUpdate, set_shipment, new_shipment, upsert_shipment, find_by_shipment_id,
}
use fincart_assissment.Worker.Records.{ActiveShipmentRecord}
use fincart_assissment.Worker.Repositories.Views.{record_of, shipment_of, dead_letters_of, dlq_of}

module _ (p : Platform) where
  -- The shipment of an event is written, and nothing else.
  pub record ShipmentWritten (r : ShipmentUpdate) (w w' : World p) : Type 0 where
    pub now : ℕ
    pub written :
        Written
          (shipment_of p w)
          (shipment_of p w')
          r.shipment_id
          (upserted (set_shipment r now) (new_shipment r now) (shipment_of p w r.shipment_id))
    pub same_records : Same (record_of p w) (record_of p w')
    pub same_dead_letters : dead_letters_of p w' ≡ dead_letters_of p w
    pub same_dlq : dlq_of p w' ≡ dlq_of p w

  -- Nothing but shipments has changed.
  pub record ShipmentsOnly (w w' : World p) : Type 0 where
    pub same_records : Same (record_of p w) (record_of p w')
    pub same_dead_letters : dead_letters_of p w' ≡ dead_letters_of p w
    pub same_dlq : dlq_of p w' ≡ dlq_of p w

  upsert_shipment_aux :
      (r : ShipmentUpdate) (now : ℕ) (w : World p) (c : p.host.State)
      {x : p.active_shipments.State × Reply Thrown (Unit {0})}
      → Post
          (λ s _.
            Written
              (shipment_of p w)
              (p.active_shipments.view s)
              r.shipment_id
              (upserted (set_shipment r now) (new_shipment r now) (shipment_of p w r.shipment_id)))
          (λ s _. Unit {0})
          x
      → Post
          (λ w' _. ShipmentWritten r w w')
          (λ w' _. ShipmentsOnly w w')
          (record w { shipments = x.0; clock = c }, x.1)
  upsert_shipment_aux r now w c (returned {w = s} h) =
      returned {w = record w { shipments = s; clock = c }} (record {
        now = now;
        written = h;
        same_records = λ j. refl;
        same_dead_letters = refl;
        same_dlq = refl;
      })
  upsert_shipment_aux r now w c (thrown {w = s} h) =
      thrown {w = record w { shipments = s; clock = c }}
        (record { same_records = λ j. refl; same_dead_letters = refl; same_dlq = refl })

  pub upsert_shipment_writes :
      (r : ShipmentUpdate) (w : World p)
      → Post (λ w' _. ShipmentWritten r w w') (λ w' _. ShipmentsOnly w w') (upsert_shipment p r w)
  unfolding upsert_shipment
  upsert_shipment_writes r w =
      let h = p.host.now w.clock in
      upsert_shipment_aux r h.1 w h.0 (
        Post-weaken
          (p.active_shipments.upsert_writes r.shipment_id (set_shipment r h.1) (new_shipment r h.1)
            w.shipments)
          (λ s _ k. k) (λ s _ _. tt))

  find_aux :
      (w : World p) {o : Option ActiveShipmentRecord}
      {x : p.active_shipments.State × Reply Thrown (Option ActiveShipmentRecord)}
      → Post (λ _ d. d ≡ o) (λ _ _. Unit {0}) x
      → Post (λ _ d. d ≡ o) (λ _ _. Unit {0}) (record w { shipments = x.0 }, x.1)
  find_aux w (returned {w = s} h) = returned {w = record w { shipments = s }} h
  find_aux w (thrown {w = s} h) = thrown {w = record w { shipments = s }} h

  -- The shipment that was written is found under its id.
  pub find_by_shipment_id-upsert_shipment :
      (r : ShipmentUpdate) (w : World p)
      → Post
          (λ _ d.
            (now : ℕ) × (d
              ≡ upserted (set_shipment r now) (new_shipment r now) (shipment_of p w r.shipment_id)))
          (λ _ _. Unit {0})
          ((upsert_shipment p r >> find_by_shipment_id p r.shipment_id) w)
  unfolding find_by_shipment_id
  find_by_shipment_id-upsert_shipment r w =
      Post-continue (λ _. find_by_shipment_id p r.shipment_id) (upsert_shipment_writes r w)
        (λ w' _ h.
          Post-weaken
            (find_aux w' (
              Post-weaken (p.active_shipments.find_one_reads r.shipment_id w'.shipments)
                (λ _ d (_, k). k ∙ (h.written r.shipment_id ∙ rw (str_eq_refl r.shipment_id)))
                (λ _ _ _. tt)))
            (λ _ d k. (h.now, k)) (λ _ _ k. k))
        (λ _ _ _. tt)
