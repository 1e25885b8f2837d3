-- ===== src/Examples/Workers.antt =====
-- gateway-worker/ with two workers on one event.
use fincart_assissment.Common.{none, some, [], ◌∷◌, arith}
use fincart_assissment.Common.Text.{text}
use fincart_assissment.Worker.Records.{ProcessedEventRecord}
use fincart_assissment.Worker.Repositories.{Received, new_record, started}
use fincart_assissment.Worker.Interleaving.{
  begun, holding, check, receive, lock, Runs, here, next, arrive, work,
}
use fincart_assissment.Worker.Interleaving.Exclusion.{IsExclusive, Runs-IsExclusive}

abbrev received_event : Received
received_event = record {
  idempotency_key = text "k1";
  event_id = text "e1";
  event_type = text "moved";
}

abbrev received_record : ProcessedEventRecord
received_record = new_record received_event 1

-- Of two workers on a new event, the first has the lock.
two_workers :
    Runs 5
      (record { document = none; workers = [] })
      (record { document = some (started 2 received_record); workers = holding 1 ∷ begun ∷ [] })
two_workers =
    next
      (next
        (next (next (next here (arrive none [])) (arrive none (begun ∷ [])))
          (work [] (begun ∷ []) (check none)))
        (work [] (begun ∷ []) (receive none received_event 1)))
      (work [] (begun ∷ []) (lock (some received_record) 2))

Runs-IsExclusive_example :
    IsExclusive 5
      (record { document = some (started 2 received_record); workers = holding 1 ∷ begun ∷ [] })
Runs-IsExclusive_example = Runs-IsExclusive (omega arith) tt two_workers
