-- ===== src/Replay/Script/Ends.antt =====
-- How a run of scripts/dlq/replay-dlq.ts ends.
use fincart_assissment.Common.{
  ℕ, ◌≡◌, ◌⊎◌, inl, inr, refl, sym, ◌∙◌, Option, none, some, List, [], ◌∷◌, ◌++◌, length, take,
  take_all, arith,
}
use mathlib.Core.Path.{subst}
use fincart_assissment.Common.Text.{Str}
use fincart_assissment.Effects.{Reply, ok, throw, continue}
use fincart_assissment.Effects.Post.{Post, returned, thrown, Post-weaken, Post-finally}
use fincart_assissment.Service.Connection.{RedisOptions, parse_redis_options}
use fincart_assissment.Service.Shutdown.{Resource, queue}
use fincart_assissment.Replay.{Stored, ReplayJob, Times, IsOldest, ReplayState, parse_limit}
use fincart_assissment.Replay.Order.{
  jobs_from, marked, documents_of, jobs_of, Reached, replay_dead_letters_ends,
}
use fincart_assissment.Replay.Environment.{ReplayEnv, replay_env}
use fincart_assissment.Replay.Script.Closing.{
  all_closes, Called, Closing, Called-Closing, close_all-Called,
}
use fincart_assissment.Replay.Script.{
  ScriptError, invalid_environment, invalid_url, Outside, Script, given_or, lifted, close_all,
  replay_letters, try_replay, with_redis, with_connection, run_script,
}

module _ {E : Type 0} (o : Outside E) (times : ℕ → Times) (limit : ℕ)
    (before : ReplayState o.places) where
  abbrev docs : ReplayState o.places → List Stored
  docs = documents_of o.places times

  abbrev queued : ReplayState o.places → List ReplayJob
  queued = jobs_of o.places times

  -- The oldest pending letters were all replayed.
  pub record Replayed (r : ReplayState o.places) : Type 0 where
    pub found : List Stored
    pub oldest : IsOldest limit (docs before) found
    pub documents : docs r ≡ marked found (docs before)
    pub jobs : queued r ≡ queued before ++ jobs_from times 0 found

  pub data Partly (r : ReplayState o.places) : Type 0 where
    not_begun : docs r ≡ docs before → queued r ≡ queued before → Partly r
    begun :
        (found : List Stored)
        → IsOldest limit (docs before) found
        → Reached o.places times 0 found before r
        → Partly r

  Replayed-Partly : (r : ReplayState o.places) → Replayed r → Partly r
  Replayed-Partly r h =
      let all : take (length h.found) h.found ≡ h.found =
        take_all (length h.found) h.found (omega arith) in
      begun h.found h.oldest (record {
        done = length h.found;
        queued = length h.found;
        marks_after = omega arith;
        one_ahead = omega arith;
        within = omega arith;
        documents = rw all h.documents;
        jobs = rw all h.jobs;
      })

module _ {E : Type 0} (o : Outside E) (times : ℕ → Times) where
  module _ (limit : ℕ) (before : ReplayState o.places) where
    abbrev Done : ReplayState o.places → Type 0
    Done = Replayed o times limit before

    abbrev Begun : ReplayState o.places → Type 0
    Begun = Partly o times limit before

    -- The replay got part of the way, and some closes were called in their order, at least that of the
    -- queue.
    pub record Broken (t : Script o) : Type 0 where
      pub more : List Resource
      pub left : List Resource
      pub calls : t.called ≡ queue ∷ more
      pub parts : queue ∷ more ++ left ≡ all_closes
      pub partly : Partly o times limit before t.replay

    breaks : (t u : Script o) → Closing o times t.replay u → Begun t.replay → Broken u
    breaks t u h partly = record {
      more = h.more;
      left = h.left;
      calls = h.calls;
      parts = h.parts;
      partly = subst Begun (sym h.same) partly;
    }

    abbrev pub Complete : Script o → Type 0
    Complete t = Replayed o times limit before t.replay × (t.called ≡ all_closes)

    completes : (t u : Script o) → Called o times t.replay all_closes u → Done t.replay → Complete u
    completes t u h done = (subst Done (sym h.same) done, h.calls)

    -- The replay is done or got part of the way, and no close was called yet.
    letters_ends :
        (s : Script o) {x : ReplayState o.places × Reply E (Unit {0})}
        → Post
            (λ r _.
              (found : List Stored) × (IsOldest limit (documents_of o.places times before) found
                × (documents_of o.places times r
                    ≡ marked found (documents_of o.places times before))
                × (jobs_of o.places times r
                    ≡ jobs_of o.places times before ++ jobs_from times 0 found)))
            (λ r e.
              ((documents_of o.places times r ≡ documents_of o.places times before)
                × (jobs_of o.places times r ≡ jobs_of o.places times before))
              ⊎ ((found : List Stored) × (IsOldest limit (documents_of o.places times before) found
                    × Reached o.places times 0 found before r)))
            x
        → Post
            (λ t _. Done t.replay × (t.called ≡ s.called))
            (λ t _. Begun t.replay × (t.called ≡ s.called))
            (record s { replay = x.0 }, lifted o times x.1)
    letters_ends s (returned (found, (oldest, documents, jobs))) =
        returned
          (record { found = found; oldest = oldest; documents = documents; jobs = jobs }, refl)
    letters_ends s (thrown (inl (documents, jobs))) = thrown (not_begun documents jobs, refl)
    letters_ends s (thrown (inr (found, (oldest, reached)))) =
        thrown (begun found oldest reached, refl)

  -- Both ends of a run: all is done, or nothing was begun, or it broke off.
  abbrev pub Ending :
      ℕ → ReplayState o.places → Script o × Reply (ScriptError E) (Unit {0}) → Type 0
  Ending limit before =
      Post (λ t _. Complete limit before t)
        (λ t _. ((t.replay ≡ before) × (t.called ≡ [])) ⊎ Broken limit before t)

  try_replay_ends :
      (limit : ℕ) (s : Script o)
      → s.called ≡ []
      → Post
          (λ t _. Complete limit s.replay t)
          (λ t _. Broken limit s.replay t)
          (try_replay o times limit s)
  unfolding try_replay replay_letters
  try_replay_ends limit s none_yet =
      Post-finally (close_all o times)
        (letters_ends limit s.replay s (replay_dead_letters_ends o.places times limit s.replay))
        (λ t _ (done, calls).
          Post-weaken (close_all-Called o times t (calls ∙ none_yet))
            (λ u _ h. completes limit s.replay t u h done)
            (λ u _ h.
              breaks limit s.replay t u h (Replayed-Partly o times limit s.replay t.replay done)))
        (λ t _ (partly, calls).
          Post-weaken (close_all-Called o times t (calls ∙ none_yet))
            (λ u _ h. breaks limit s.replay t u (Called-Closing o times h) partly)
            (λ u _ h. breaks limit s.replay t u h partly))

  -- The script starts with no close called. If it ends normally, it has put a job into the queue for
  -- each of the oldest pending letters, up to the limit of the command line, oldest first, marked
  -- exactly these as replayed, and called the closes of the queue, of Redis and of MongoDB. If it
  -- fails, either it has changed no letter and no job and called no close; or the replay got part of
  -- the way through these letters, or all of it, or did not begin, and the closes were called in that
  -- order up to some point, at least that of the queue.
  pub run_script_ends :
      (variables : Str → Option Str) (argv : List Str) (s : Script o)
      → s.called ≡ []
      → Ending (parse_limit argv) s.replay (run_script o times variables argv s)
  unfolding run_script with_redis with_connection
  run_script_ends variables argv s none_yet = with_env (replay_env o.schemas variables)
    where
      with_url :
          (c : o.connections.State) (redis : Option RedisOptions)
          → Ending (parse_limit argv) s.replay (
              continue
                (λ _. try_replay o times (parse_limit argv))
                (given_or o times invalid_url redis (record s { connected = c })))
      with_url c none = thrown (inl (refl, none_yet))
      with_url c (some redis) =
          Post-weaken (try_replay_ends (parse_limit argv) (record s { connected = c }) none_yet)
            (λ t _ h. h) (λ t _ h. inr h)

      with_mongo :
          (env : ReplayEnv) (x : o.connections.State × Reply E (Unit {0}))
          → Ending (parse_limit argv) s.replay (
              continue
                (λ _. with_redis o times (parse_limit argv) env)
                (record s { connected = x.0 }, lifted o times x.1))
      with_mongo env (c, ok _) = with_url c (parse_redis_options o.url_of env.redis_url)
      with_mongo env (c, throw e) = thrown (inl (refl, none_yet))

      with_env :
          (env : Option ReplayEnv)
          → Ending (parse_limit argv) s.replay (
              continue
                (with_connection o times (parse_limit argv))
                (given_or o times invalid_environment env s))
      with_env none = thrown (inl (refl, none_yet))
      with_env (some e) = with_mongo e (o.connections.connect_mongo s.connected)
