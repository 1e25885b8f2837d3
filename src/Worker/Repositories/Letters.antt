-- ===== src/Worker/Repositories/Letters.antt =====
-- What adding a dead letter or a job for it does to what can be seen of the stores.
use fincart_assissment.Common.{ℕ, [], ◌∷◌, ◌++◌, ◌≡◌, refl, ◌⊎◌}
use fincart_assissment.Effects.{Reply}
use fincart_assissment.Effects.Post.{Post, returned, thrown, Post-weaken}
use fincart_assissment.Worker.Classifier.{Thrown}
use fincart_assissment.Services.{Same}
use fincart_assissment.Worker.World.{Platform, World, on_dlq}
use fincart_assissment.Worker.Records.{DeadLetterEventRecord, DeadLetterJob}
use fincart_assissment.Worker.Repositories.{DeadLetter, new_dead_letter, persist_dead_letter}
use fincart_assissment.Worker.Repositories.Views.{record_of, shipment_of, dead_letters_of, dlq_of}

module _ (p : Platform) where
  -- Nothing but the dead letters has changed: those of the collection and the jobs of the queue.
  pub record LettersOnly (w w' : World p) : Type 0 where
    pub same_records : Same (record_of p w) (record_of p w')
    pub same_shipments : Same (shipment_of p w) (shipment_of p w')

  persist_aux :
      (d : DeadLetterEventRecord) (w : World p) (c : p.host.State)
      {x : p.dead_letter_events.State × Reply Thrown (Unit {0})}
      → Post
          (λ s _. p.dead_letter_events.entries s ≡ dead_letters_of p w ++ d ∷ [])
          (λ s _.
            (p.dead_letter_events.entries s ≡ dead_letters_of p w)
            ⊎ (p.dead_letter_events.entries s ≡ dead_letters_of p w ++ d ∷ []))
          x
      → Post
          (λ w' _.
            LettersOnly w w'
            × (dead_letters_of p w' ≡ dead_letters_of p w ++ d ∷ [])
            × (dlq_of p w' ≡ dlq_of p w))
          (λ w' _.
            LettersOnly w w'
            × ((dead_letters_of p w' ≡ dead_letters_of p w)
                ⊎ (dead_letters_of p w' ≡ dead_letters_of p w ++ d ∷ []))
            × (dlq_of p w' ≡ dlq_of p w))
          (record w { dead_letters = x.0; clock = c }, x.1)
  persist_aux d w c (returned {w = s} h) =
      returned {w = record w { dead_letters = s; clock = c }}
        (record { same_records = λ j. refl; same_shipments = λ j. refl }, h, refl)
  persist_aux d w c (thrown {w = s} h) =
      thrown {w = record w { dead_letters = s; clock = c }}
        (record { same_records = λ j. refl; same_shipments = λ j. refl }, h, refl)

  pub persist_dead_letter_writes :
      (r : DeadLetter) (w : World p)
      → Post
          (λ w' _.
            (now : ℕ) × (later : ℕ) × LettersOnly w w'
            × (dead_letters_of p w' ≡ dead_letters_of p w ++ new_dead_letter r now later ∷ [])
            × (dlq_of p w' ≡ dlq_of p w))
          (λ w' _. LettersOnly w w' × (dlq_of p w' ≡ dlq_of p w))
          (persist_dead_letter p r w)
  unfolding persist_dead_letter
  persist_dead_letter_writes r w =
      let h = p.host.now w.clock in
      let k = p.host.now h.0 in
      let d = new_dead_letter r h.1 k.1 in
      Post-weaken (persist_aux d w k.0 (p.dead_letter_events.add_appends d w.dead_letters))
        (λ w' _ (only, letters, jobs). (h.1, k.1, only, letters, jobs))
        (λ w' _ (only, letters, jobs). (only, jobs))

  -- Adding a job to the dead-letter queue.
  pub on_dlq_writes :
      (job : DeadLetterJob) (w : World p)
      → Post
          (λ w' _.
            LettersOnly w w'
            × (dead_letters_of p w' ≡ dead_letters_of p w)
            × (dlq_of p w' ≡ dlq_of p w ++ job ∷ []))
          (λ w' _. LettersOnly w w' × (dead_letters_of p w' ≡ dead_letters_of p w))
          (on_dlq p (p.dlq_queue.add job) w)
  on_dlq_writes job w = dlq_aux (p.dlq_queue.add_appends job w.dlq)
    where
      dlq_aux :
          {x : p.dlq_queue.State × Reply Thrown (Unit {0})}
          → Post
              (λ s _. p.dlq_queue.entries s ≡ dlq_of p w ++ job ∷ [])
              (λ s _.
                (p.dlq_queue.entries s ≡ dlq_of p w)
                ⊎ (p.dlq_queue.entries s ≡ dlq_of p w ++ job ∷ []))
              x
          → Post
              (λ w' _.
                LettersOnly w w'
                × (dead_letters_of p w' ≡ dead_letters_of p w)
                × (dlq_of p w' ≡ dlq_of p w ++ job ∷ []))
              (λ w' _. LettersOnly w w' × (dead_letters_of p w' ≡ dead_letters_of p w))
              (record w { dlq = x.0 }, x.1)
      dlq_aux (returned {w = s} h) =
          returned {w = record w { dlq = s }}
            (record { same_records = λ j. refl; same_shipments = λ j. refl }, refl, h)
      dlq_aux (thrown {w = s} h) =
          thrown {w = record w { dlq = s }}
            (record { same_records = λ j. refl; same_shipments = λ j. refl }, refl)
