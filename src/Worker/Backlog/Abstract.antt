-- ===== src/Worker/Backlog/Abstract.antt =====
-- What a backlog of jobs comes to, as a ledger that knows no records, locks, attempts or errors: the
-- events that are done with, the state of each shipment, and the events that were given up, by the keys
-- of the dead letters and of the jobs in their queue. gateway-worker/src is to implement it.
use fincart_assissment.Common.{Bool, ◌||◌, Option, none, some, List, [], ◌∷◌, ◌++◌, if◌then◌else◌}
use fincart_assissment.Common.Text.{Str, text, str_eq}
use fincart_assissment.Contracts.{QueueJobPayload}
use fincart_assissment.Effects.{Reply, ok, throw}
use fincart_assissment.Worker.Classifier.{Thrown}
use fincart_assissment.Worker.Repositories.{ShipmentUpdate}
use fincart_assissment.Worker.ProcessEvent.{get_payload_field}
use fincart_assissment.Worker.ProcessEvent.Outcome.{shipment_update}

pub record Ledger : Type 0 where
  pub is_done : Str → Bool
  pub states : Str → Option ShipmentUpdate
  pub given_up : List Str
  pub queued : List Str

abbrev pub described_by :
    QueueJobPayload → Reply Thrown Str → Reply Thrown Str → Option ShipmentUpdate
described_by job (ok shipment_id) (ok current_state) =
    some (shipment_update job shipment_id current_state)
described_by job (ok shipment_id) (throw e) = none
described_by job (throw e) status = none

-- What a job says of its shipment, if its payload has both fields.
unfoldable pub described : QueueJobPayload → Option ShipmentUpdate
described job =
    described_by job (get_payload_field job.payload (text "shipmentId"))
      (get_payload_field job.payload (text "status"))

abbrev pub post : ShipmentUpdate → (Str → Option ShipmentUpdate) → Str → Option ShipmentUpdate
post update states id = if str_eq id update.shipment_id then some update else states id

abbrev pub close : Str → (Str → Bool) → Str → Bool
close key is_done other = str_eq other key || is_done other

abbrev pub enter : Str → Option ShipmentUpdate → Ledger → Ledger
enter key (some update) l = record {
  is_done = close key l.is_done;
  states = post update l.states;
  given_up = l.given_up;
  queued = l.queued;
}
enter key none l = record {
  is_done = close key l.is_done;
  states = l.states;
  given_up = l.given_up ++ key ∷ [];
  queued = l.queued ++ key ∷ [];
}

-- An event that is not done with is applied, or given up for what its payload lacks.
unfoldable pub book : QueueJobPayload → Ledger → Ledger
unfolding described
book job l =
    if l.is_done job.idempotency_key then l else enter job.idempotency_key (described job) l

unfoldable pub book_all : List QueueJobPayload → Ledger → Ledger
unfolding book
book_all [] l = l
book_all (job ∷ jobs) l = book_all jobs (book job l)
