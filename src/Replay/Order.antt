-- ===== src/Replay/Order.antt =====
-- How far a replay of dead letters got, however it ends (scripts/dlq/replay-dlq.ts).
use fincart_assissment.Common.{
  ℕ, suc, ◌+◌, ◌≤◌, ◌≡◌, ◌⊎◌, inl, inr, refl, sym, ap, ◌∙◌, List, [], ◌∷◌, ◌++◌, map, length, take,
  arith,
}
use mathlib.Core.List.{append_assoc, append-nil}
use mathlib.Core.Path.{subst}
use fincart_assissment.Effects.Post.{Post, returned, Post-continue, Post-weaken, Post-inside}
use fincart_assissment.Replay.{
  Stored, ReplayJob, Times, replay_job, set_replayed, IsOldest, Places, ReplayState, on_letters,
  on_queue, replay_records, replay_dead_letters,
}

-- The jobs of some records, the first with the index `i`.
abbrev pub jobs_from : (ℕ → Times) → ℕ → List Stored → List ReplayJob
jobs_from times i [] = []
jobs_from times i (d ∷ ds) = replay_job d.letter (times i) ∷ jobs_from times (suc i) ds

-- The documents after these records were marked as replayed.
abbrev pub marked : List Stored → List Stored → List Stored
marked [] documents = documents
marked (d ∷ ds) documents = marked ds (map (set_replayed d.id) documents)

module _ {E : Type 0} (p : Places E) (times : ℕ → Times) where
  abbrev pub documents_of : ReplayState p → List Stored
  documents_of s = p.dead_letters.documents s.letters

  abbrev pub jobs_of : ReplayState p → List ReplayJob
  jobs_of s = p.main_queue.entries s.jobs

  -- Of the records, the first `queued` are in the queue and the first `done` are marked.
  pub record Reached (i : ℕ) (records : List Stored) (s s' : ReplayState p) : Type 0 where
    pub done : ℕ
    pub queued : ℕ
    pub marks_after : done ≤ queued
    pub one_ahead : queued ≤ done + 1
    pub within : queued ≤ length records
    pub documents : documents_of s' ≡ marked (take done records) (documents_of s)
    pub jobs : jobs_of s' ≡ jobs_of s ++ jobs_from times i (take queued records)

  Reached-suc :
      (i : ℕ) (d : Stored) (records : List Stored) (s s₁ s' : ReplayState p)
      → jobs_of s₁ ≡ jobs_of s ++ replay_job d.letter (times i) ∷ []
      → documents_of s₁ ≡ map (set_replayed d.id) (documents_of s)
      → Reached (suc i) records s₁ s'
      → Reached i (d ∷ records) s s'
  Reached-suc i d records s s₁ s' added changed h = record {
    done = suc h.done;
    queued = suc h.queued;
    marks_after = omega (arith, h.marks_after);
    one_ahead = omega (arith, h.one_ahead);
    within = omega (arith, h.within);
    documents = h.documents ∙ ap (marked (take h.done records)) changed;
    jobs =
        h.jobs
        ∙ (ap (λ l. l ++ jobs_from times (suc i) (take h.queued records)) added
            ∙ append_assoc (jobs_of s) (replay_job d.letter (times i) ∷ [])
                (jobs_from times (suc i) (take h.queued records)));
  }

  Reached-from :
      (i : ℕ) (records : List Stored) (s u s' : ReplayState p)
      → documents_of u ≡ documents_of s
      → jobs_of u ≡ jobs_of s
      → Reached i records u s'
      → Reached i records s s'
  Reached-from i records s u s' documents jobs h = record {
    done = h.done;
    queued = h.queued;
    marks_after = h.marks_after;
    one_ahead = h.one_ahead;
    within = h.within;
    documents = h.documents ∙ ap (marked (take h.done records)) documents;
    jobs = h.jobs ∙ ap (λ l. l ++ jobs_from times i (take h.queued records)) jobs;
  }

  nothing_done :
      (i : ℕ) (records : List Stored) (s s' : ReplayState p)
      → jobs_of s' ≡ jobs_of s
      → documents_of s' ≡ documents_of s
      → Reached i records s s'
  nothing_done i records s s' jobs documents = record {
    done = 0;
    queued = 0;
    marks_after = omega arith;
    one_ahead = omega arith;
    within = omega arith;
    documents = documents;
    jobs = jobs ∙ sym (append-nil (jobs_of s));
  }

  one_queued :
      (i : ℕ) (d : Stored) (records : List Stored) (s s' : ReplayState p)
      → jobs_of s' ≡ jobs_of s ++ replay_job d.letter (times i) ∷ []
      → documents_of s' ≡ documents_of s
      → Reached i (d ∷ records) s s'
  one_queued i d records s s' jobs documents = record {
    done = 0;
    queued = 1;
    marks_after = omega arith;
    one_ahead = omega arith;
    within = omega arith;
    documents = documents;
    jobs = jobs;
  }

  on_queue_adds :
      (j : ReplayJob) (s : ReplayState p)
      → Post
          (λ s' _. (jobs_of s' ≡ jobs_of s ++ j ∷ []) × (documents_of s' ≡ documents_of s))
          (λ s' e.
            ((jobs_of s' ≡ jobs_of s) ⊎ (jobs_of s' ≡ jobs_of s ++ j ∷ []))
            × (documents_of s' ≡ documents_of s))
          (on_queue p times (p.main_queue.add j) s)
  on_queue_adds j s =
      Post-inside (λ q. record s { jobs = q }) (p.main_queue.add_appends j s.jobs)
        (λ q a added. (added, refl)) (λ q e maybe. (maybe, refl))

  on_letters_marks :
      (id : ℕ) (s : ReplayState p)
      → Post
          (λ s' _.
            (jobs_of s' ≡ jobs_of s) × (documents_of s' ≡ map (set_replayed id) (documents_of s)))
          (λ s' e.
            (jobs_of s' ≡ jobs_of s)
            × ((documents_of s' ≡ documents_of s)
                ⊎ (documents_of s' ≡ map (set_replayed id) (documents_of s))))
          (on_letters p times (p.dead_letters.update_replayed id) s)
  on_letters_marks id s =
      Post-inside (λ l. record s { letters = l })
        (p.dead_letters.update_replayed_writes id s.letters) (λ l a marked_it. (refl, marked_it))
        (λ l e maybe. (refl, maybe))

  -- The job was queued; the update of its letter may have been made.
  marking_threw :
      (i : ℕ) (d : Stored) (records : List Stored) (s s' : ReplayState p)
      → jobs_of s' ≡ jobs_of s ++ replay_job d.letter (times i) ∷ []
      → (documents_of s' ≡ documents_of s)
        ⊎ (documents_of s' ≡ map (set_replayed d.id) (documents_of s))
      → Reached i (d ∷ records) s s'
  marking_threw i d records s s' jobs (inl same) = one_queued i d records s s' jobs same
  marking_threw i d records s s' jobs (inr changed) =
      Reached-suc i d records s s' s' jobs changed (nothing_done (suc i) records s' s' refl refl)

  -- The queue did not answer; the job may have been added.
  adding_threw :
      (i : ℕ) (d : Stored) (records : List Stored) (s s' : ReplayState p)
      → (jobs_of s' ≡ jobs_of s) ⊎ (jobs_of s' ≡ jobs_of s ++ replay_job d.letter (times i) ∷ [])
      → documents_of s' ≡ documents_of s
      → Reached i (d ∷ records) s s'
  adding_threw i d records s s' (inl same) documents =
      nothing_done i (d ∷ records) s s' same documents
  adding_threw i d records s s' (inr added) documents = one_queued i d records s s' added documents

  abbrev AllReplayed : ℕ → List Stored → ReplayState p → ReplayState p → Type 0
  AllReplayed i records s s' =
      (documents_of s' ≡ marked records (documents_of s))
      × (jobs_of s' ≡ jobs_of s ++ jobs_from times i records)

  replay_records_ends :
      (i : ℕ) (records : List Stored) (s : ReplayState p)
      → Post
          (λ s' _. AllReplayed i records s s')
          (λ s' e. Reached i records s s')
          (replay_records p times i records s)
  unfolding replay_records
  replay_records_ends i [] s = returned (refl, sym (append-nil (jobs_of s)))
  replay_records_ends i (d ∷ records) s =
      Post-continue _ (on_queue_adds (replay_job d.letter (times i)) s)
        (λ s₁ _ (added, same).
          Post-continue _ (on_letters_marks d.id s₁)
            (λ s₂ _ (kept, changed).
              let added₂ = kept ∙ added in
              let changed₂ = changed ∙ ap (map (set_replayed d.id)) same in
              Post-weaken (replay_records_ends (suc i) records s₂)
                (λ s' _ (documents, jobs). (
                  documents ∙ ap (marked records) changed₂,
                  jobs
                      ∙ (ap (λ l. l ++ jobs_from times (suc i) records) added₂
                          ∙ append_assoc (jobs_of s) (replay_job d.letter (times i) ∷ [])
                              (jobs_from times (suc i) records)),
                ))
                (λ s' e h. Reached-suc i d records s s₂ s' added₂ changed₂ h))
            (λ s' e (kept, maybe). marking_threw i d records s s' (kept ∙ added) (
              subst (λ ds. (documents_of s' ≡ ds) ⊎ (documents_of s' ≡ map (set_replayed d.id) ds))
                same maybe)))
        (λ s' e (maybe, same). adding_threw i d records s s' maybe same)

  -- A replay that ends normally has put a job into the queue for each of the oldest pending letters, up
  -- to the limit, oldest first, and marked exactly these as replayed. One that throws did nothing, or
  -- got part of the way through them in that order: a letter is marked only after its job was queued,
  -- and at most one job is in the queue whose letter is still pending.
  pub replay_dead_letters_ends :
      (limit : ℕ) (s : ReplayState p)
      → Post
          (λ s' _.
            (found : List Stored) × (IsOldest limit (documents_of s) found
              × (documents_of s' ≡ marked found (documents_of s))
              × (jobs_of s' ≡ jobs_of s ++ jobs_from times 0 found)))
          (λ s' e.
            ((documents_of s' ≡ documents_of s) × (jobs_of s' ≡ jobs_of s))
            ⊎ ((found : List Stored) × (IsOldest limit (documents_of s) found
                  × Reached 0 found s s')))
          (replay_dead_letters p times limit s)
  unfolding replay_dead_letters
  replay_dead_letters_ends limit s =
      Post-continue (replay_records p times 0)
        (Post-inside
          {Q' = λ u found.
            (documents_of u ≡ documents_of s)
            × IsOldest limit (documents_of s) found
            × (jobs_of u ≡ jobs_of s)}
          {R' = λ u e. (documents_of u ≡ documents_of s) × (jobs_of u ≡ jobs_of s)}
          (λ l. record s { letters = l }) (p.dead_letters.find_pending_reads limit s.letters)
          (λ l found (same, oldest). (same, oldest, refl)) (λ l e same. (same, refl)))
        (λ u found (same, oldest, kept).
          Post-weaken (replay_records_ends 0 found u)
            (λ s' _ (documents, jobs). (
              found,
              (
                oldest,
                documents ∙ ap (marked found) same,
                jobs ∙ ap (λ l. l ++ jobs_from times 0 found) kept,
              ),
            ))
            (λ s' e h. inr (found, (oldest, Reached-from 0 found s u s' same kept h))))
        (λ u e same. inl same)
