-- ===== src/Replay/Script/Closing.antt =====
-- The `finally` clause of scripts/dlq/replay-dlq.ts.
use fincart_assissment.Common.{ℕ, ◌≡◌, refl, ap, List, [], ◌∷◌, ◌++◌}
use fincart_assissment.Effects.{Reply, ok, throw, continue}
use fincart_assissment.Effects.Post.{Post, returned, thrown, Post-continue, Post-weaken}
use fincart_assissment.Service.Shutdown.{Resource, queue, redis_connection, mongo_client}
use fincart_assissment.Replay.{Times, ReplayState}
use fincart_assissment.Replay.Script.{
  ScriptError, Outside, Script, Scripted, lifted, closing, close_all,
}

-- What the `finally` clause closes.
abbrev pub all_closes : List Resource
all_closes = queue ∷ redis_connection ∷ mongo_client ∷ []

module _ {E : Type 0} (o : Outside E) (times : ℕ → Times) where
  -- These closes were called, and the replay is as it was.
  pub record Called (r : ReplayState o.places) (cs : List Resource) (t : Script o) : Type 0 where
    pub same : t.replay ≡ r
    pub calls : t.called ≡ cs

  -- The first closes of the `finally` clause were called, at least that of the queue.
  pub record Closing (r : ReplayState o.places) (t : Script o) : Type 0 where
    pub same : t.replay ≡ r
    pub more : List Resource
    pub left : List Resource
    pub calls : t.called ≡ queue ∷ more
    pub parts : queue ∷ more ++ left ≡ all_closes

  closing-Called :
      (resource : Resource) (op : o.connections.State → o.connections.State × Reply E (Unit {0}))
      (r : ReplayState o.places) (cs : List Resource) (t : Script o)
      → Called r cs t
      → Post
          (λ t' _. Called r (cs ++ resource ∷ []) t')
          (λ t' _. Called r (cs ++ resource ∷ []) t')
          (closing o times resource op t)
  closing-Called resource op r cs t h = settled (op t.connected)
    where
      settled :
          (x : o.connections.State × Reply E (Unit {0}))
          → Post
              (λ t' _. Called r (cs ++ resource ∷ []) t')
              (λ t' _. Called r (cs ++ resource ∷ []) t')
              (record t { connected = x.0; called = t.called ++ resource ∷ [] }, lifted o times x.1)
      settled (c, ok _) =
          returned (record { same = h.same; calls = ap (λ l. l ++ resource ∷ []) h.calls })
      settled (c, throw e) =
          thrown (record { same = h.same; calls = ap (λ l. l ++ resource ∷ []) h.calls })

  pub Called-Closing :
      {r : ReplayState o.places} {t : Script o} → Called r all_closes t → Closing r t
  Called-Closing h = record {
    same = h.same;
    more = redis_connection ∷ mongo_client ∷ [];
    left = [];
    calls = h.calls;
    parts = refl;
  }

  then_close :
      {Q : Script o → Unit {0} → Type 0} (r : ReplayState o.places) (more left : List Resource)
      (f : Scripted o times (Unit {0})) {x : Script o × Reply (ScriptError E) (Unit {0})}
      → queue ∷ more ++ left ≡ all_closes
      → Post (λ t _. Called r (queue ∷ more) t) (λ t _. Called r (queue ∷ more) t) x
      → ((t : Script o) → Called r (queue ∷ more) t → Post Q (λ t' _. Closing r t') (f t))
      → Post Q (λ t' _. Closing r t') (continue (λ _. f) x)
  then_close r more left f parts p next =
      Post-continue (λ _. f) p (λ t _ h. next t h)
        (λ t _ h. record {
          same = h.same;
          more = more;
          left = left;
          calls = h.calls;
          parts = parts;
        })

  pub close_all-Called :
      (t : Script o)
      → t.called ≡ []
      → Post
          (λ t' _. Called t.replay all_closes t')
          (λ t' _. Closing t.replay t')
          (close_all o times t)
  unfolding close_all
  close_all-Called t none_yet =
      then_close t.replay [] (redis_connection ∷ mongo_client ∷ []) _ refl
        (closing-Called queue o.connections.close_queue t.replay [] t
          (record { same = refl; calls = none_yet }))
        (λ u h.
          then_close t.replay (redis_connection ∷ []) (mongo_client ∷ []) _ refl
            (closing-Called redis_connection o.connections.quit_redis t.replay (queue ∷ []) u h)
            (λ v k.
              Post-weaken
                (closing-Called mongo_client o.connections.close_mongo t.replay
                  (queue ∷ redis_connection ∷ []) v k)
                (λ w _ l. l) (λ w _ l. Called-Closing l)))
