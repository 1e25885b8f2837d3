-- ===== src/Examples/Replays.antt =====
-- scripts/dlq/replay-dlq.ts on dead letters kept in memory.
use fincart_assissment.Common.{
  ℕ, zero, suc, ◌+◌, ◌≤◌, ◌≡◌, inl, inr, refl, sym, ap, ◌∙◌, true, false, none, some, List, [], ◌∷◌,
  ◌++◌, map, length, All, Bool-cases, leb, take, min, total, total_one, SameItems, arith,
}
use mathlib.Core.Path.{subst}
use fincart_assissment.Common.Text.{text}
use fincart_assissment.Contracts.{end, unknown_error}
use fincart_assissment.Effects.{ok, throw}
use fincart_assissment.Effects.Post.{returned}
use fincart_assissment.Worker.Records.{DeadLetterEventRecord, pending}
use fincart_assissment.Replay.{
  Stored, Times, set_replayed, pending_only, OldestFirst, IsOldest, Letters, Places, ReplayState,
  parse_limit,
}
use fincart_assissment.Replay.Script.{Connections, Outside, Script, run_script}
use fincart_assissment.Replay.Script.Ends.{Ending, run_script_ends}
use fincart_assissment.Examples.Environments.{schemas}
use fincart_assissment.Examples.Services.{log}

abbrev drop : ℕ → List Stored → List Stored
drop zero ds = ds
drop (suc n) [] = []
drop (suc n) (d ∷ ds) = drop n ds

take-drop : (n : ℕ) (ds : List Stored) → take n ds ++ drop n ds ≡ ds
take-drop zero ds = refl
take-drop (suc n) [] = refl
take-drop (suc n) (d ∷ ds) = ap (λ l. d ∷ l) (take-drop n ds)

length-take : (n : ℕ) (ds : List Stored) → length (take n ds) ≡ min n (length ds)
length-take zero ds = ground arith
length-take (suc n) [] = ground arith
length-take (suc n) (d ∷ ds) = ground (arith, length-take n ds)

insert_letter : Stored → List Stored → List Stored
insert_letter d [] = d ∷ []
insert_letter d (e ∷ es) = elim (leb d.letter.created_at e.letter.created_at) [
  | true ↦ d ∷ e ∷ es
  | false ↦ e ∷ insert_letter d es
]

by_age : List Stored → List Stored
by_age [] = []
by_age (d ∷ ds) = insert_letter d (by_age ds)

insert_letter-total :
    (weight : Stored → ℕ) (d : Stored) (ds : List Stored)
    → total weight (insert_letter d ds) ≡ weight d + total weight ds
unfolding insert_letter
insert_letter-total weight d [] = refl
insert_letter-total weight d (e ∷ es) =
    elim (Bool-cases (leb d.letter.created_at e.letter.created_at)) [
      | inl h ↦ rw (insert_letter, h) refl
      | inr h ↦ rw (insert_letter, h) (omega (arith, insert_letter-total weight d es))
    ]

by_age-SameItems : (ds : List Stored) → SameItems (by_age ds) ds
unfolding by_age
by_age-SameItems [] weight = refl
by_age-SameItems (d ∷ ds) weight =
    omega (arith, insert_letter-total weight d (by_age ds), by_age-SameItems ds weight)

All-older :
    (a b : ℕ) (ds : List Stored)
    → a ≤ b
    → All (λ e. b ≤ e.letter.created_at) ds
    → All (λ e. a ≤ e.letter.created_at) ds
All-older a b [] h all = tt
All-older a b (d ∷ ds) h (k, all) = (omega arith, All-older a b ds h all)

insert_letter-All :
    (a : ℕ) (d : Stored) (ds : List Stored)
    → a ≤ d.letter.created_at
    → All (λ e. a ≤ e.letter.created_at) ds
    → All (λ e. a ≤ e.letter.created_at) (insert_letter d ds)
unfolding insert_letter
insert_letter-All a d [] h all = (h, tt)
insert_letter-All a d (e ∷ es) h (k, all) =
    elim (Bool-cases (leb d.letter.created_at e.letter.created_at)) [
      | inl le ↦ rw (insert_letter, le) (h, (k, all))
      | inr gt ↦ rw (insert_letter, gt) (k, insert_letter-All a d es h all)
    ]

insert_letter-OldestFirst :
    (d : Stored) (ds : List Stored) → OldestFirst ds → OldestFirst (insert_letter d ds)
unfolding insert_letter
insert_letter-OldestFirst d [] h = (tt, tt)
insert_letter-OldestFirst d (e ∷ es) (k, h) =
    elim (Bool-cases (leb d.letter.created_at e.letter.created_at)) [
      | inl le ↦
          let older : d.letter.created_at ≤ e.letter.created_at = ground arith in
          rw (insert_letter, le) ((older, All-older _ _ es older k), (k, h))
      | inr gt ↦
          rw (insert_letter, gt)
            (
              insert_letter-All e.letter.created_at d es (ground arith) k,
              insert_letter-OldestFirst d es h,
            )
    ]

by_age-OldestFirst : (ds : List Stored) → OldestFirst (by_age ds)
unfolding by_age
by_age-OldestFirst [] = tt
by_age-OldestFirst (d ∷ ds) = insert_letter-OldestFirst d (by_age ds) (by_age-OldestFirst ds)

oldest : (limit : ℕ) (ds : List Stored) → IsOldest limit ds (take limit (by_age (pending_only ds)))
oldest limit ds =
    let sorted = by_age (pending_only ds) in
    let same = by_age-SameItems (pending_only ds) in
    let size : length sorted ≡ length (pending_only ds) =
      sym (total_one sorted) ∙ same (λ _. 1) ∙ total_one (pending_only ds) in
    record {
      others = drop limit sorted;
      parts = λ weight. ap (total weight) (take-drop limit sorted) ∙ same weight;
      ascending =
          subst OldestFirst (sym (take-drop limit sorted)) (by_age-OldestFirst (pending_only ds));
      limited = length-take limit sorted ∙ ap (min limit) size;
    }

abbrev kept_letters : Letters (Unit {0})
kept_letters = record {
  State = List Stored;
  documents = λ s. s;
  find_pending = λ limit s. (s, ok (take limit (by_age (pending_only s))));
  update_replayed = λ id s. (map (set_replayed id) s, ok tt);
  find_pending_reads = λ limit s. returned (refl, oldest limit s);
  update_replayed_writes = λ id s. returned refl;
}

abbrev places : Places (Unit {0})
places = record { dead_letters = kept_letters; main_queue = log }

abbrev pub letter : DeadLetterEventRecord
letter = record {
  event_id = text "evt_1";
  idempotency_key = text "courier:evt_1";
  event_type = text "shipment.status.updated";
  terminal_reason_code = unknown_error;
  terminal_reason_message = text "boom";
  attempt_count = 5;
  attempt_history = [];
  payload_snapshot = end;
  review_status = pending;
  created_at = 1000;
  expires_at = 2000;
  trace_id = text "t1";
}

abbrev two_letters : ReplayState places
two_letters = record {
  letters =
      record { id = 1; letter = letter }
      ∷ record { id = 2; letter = record letter { created_at = 900 } }
      ∷ [];
  jobs = [];
}

abbrev pub times : ℕ → Times
times i = record {
  occurred_at = text "2026-01-01T00:00:00.000Z";
  signed_at = 5000;
  received_at = 5000;
}

-- Redis does not answer when it is to be quit.
abbrev connections : Connections (Unit {0})
connections = record {
  State = Unit {0};
  connect_mongo = λ s. (s, ok tt);
  close_queue = λ s. (s, ok tt);
  quit_redis = λ s. (s, throw tt);
  close_mongo = λ s. (s, ok tt);
}

abbrev outside : Outside (Unit {0})
outside = record {
  schemas = schemas;
  url_of = λ s. some (record {
    protocol = text "redis:";
    hostname = text "localhost";
    port = text "6379";
    password = [];
    username = [];
    pathname = [];
  });
  places = places;
  connections = connections;
}

abbrev script : Script outside
script = record { replay = two_letters; connected = tt; called = [] }

run_script_ends_example :
    Ending outside times
      (parse_limit (text "--limit" ∷ text "1" ∷ []))
      two_letters
      (run_script outside times (λ key. none) (text "--limit" ∷ text "1" ∷ []) script)
run_script_ends_example =
    run_script_ends outside times (λ key. none) (text "--limit" ∷ text "1" ∷ []) script refl
