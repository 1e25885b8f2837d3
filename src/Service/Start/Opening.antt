-- ===== src/Service/Start/Opening.antt =====
-- What a start has opened when it ends, beside what the shutdown closes (gateway-api/src/main.ts,
-- gateway-worker/src/main.ts).
use fincart_assissment.Common.{
  ◌≡◌, refl, sym, ap, ◌∙◌, Bool, true, false, Option, none, some, List, [], ◌∷◌, ◌++◌,
}
use mathlib.Core.List.{reverse}
use fincart_assissment.Common.Text.{Str, text}
use fincart_assissment.Effects.{Reply, ok, throw, continue}
use fincart_assissment.Effects.Post.{Post, returned, thrown, Post-continue}
use fincart_assissment.Service.Connection.{
  ConnectError, failed_to_connect, Closes, connect_mongo_ends, RedisOptions, parse_redis_options,
}
use fincart_assissment.Service.Shutdown.{
  Service, gateway_api, gateway_worker, Resource, app, worker, queue, dlq_queue, redis_connection,
  mongo_client, closes,
}
use fincart_assissment.Service.Environment.{WorkerEnv, ApiEnv, load_worker_env, load_api_env}
use fincart_assissment.Service.Start.{
  StartError, invalid_environment, invalid_url, Libraries, Boot, Starting, given_or, opens,
  connected, connects, answered, on_server, wire_worker, redis_of, connect_worker, start_worker,
  listening, wire_api, connect_api, start_api,
}

abbrev has_some : List Resource → Bool
has_some [] = false
has_some (r ∷ rs) = true

module _ {E : Type 0} (l : Libraries E) where
  -- These are open, and MongoDB's client is connected if any is.
  record At (rs : List Resource) (s : Boot l) : Type 0 where
    pub opened : s.opened ≡ rs
    pub linked : l.client.connected s.mongo ≡ has_some rs

  -- What is open is the end of what the shutdown closes, in the reverse order, and MongoDB's client is
  -- connected exactly if something is open.
  pub record Progress (service : Service) (s : Boot l) : Type 0 where
    pub missing : List Resource
    pub parts : s.opened ++ missing ≡ reverse (closes service)
    pub linked : l.client.connected s.mongo ≡ has_some s.opened

  At-Progress :
      (service : Service) (rs missing : List Resource) (s : Boot l)
      → rs ++ missing ≡ reverse (closes service)
      → At rs s
      → Progress service s
  At-Progress service rs missing s parts a = record {
    missing = missing;
    parts = ap (λ xs. xs ++ missing) a.opened ∙ parts;
    linked = a.linked ∙ ap has_some (sym a.opened);
  }

  given_or-At :
      {A : Type 0} (rs : List Resource) (e : StartError E) (o : Option A) (s : Boot l)
      → At rs s
      → Post (λ s' _. At rs s') (λ s' _. At rs s') (given_or l e o s)
  given_or-At rs e none s a = thrown a
  given_or-At rs e (some x) s a = returned a

  opens-At :
      (r first : Resource) (rs : List Resource) (s : Boot l)
      → At (first ∷ rs) s
      → Post (λ s' _. At (first ∷ rs ++ r ∷ []) s') (λ s' _. At (first ∷ rs) s') (opens l r s)
  opens-At r first rs s a =
      returned (record { opened = ap (λ xs. xs ++ r ∷ []) a.opened; linked = a.linked })

  on_server-At :
      (rs : List Resource) (op : l.server.State → l.server.State × Reply E (Unit {0})) (s : Boot l)
      → At rs s
      → Post (λ s' _. At rs s') (λ s' _. At rs s') (on_server l op s)
  on_server-At rs op s a = answered-At (op s.fastify)
    where
      answered-At :
          (r : l.server.State × Reply E (Unit {0}))
          → Post (λ s' _. At rs s') (λ s' _. At rs s') (answered l s r)
      answered-At (f, ok _) = returned (record { opened = a.opened; linked = a.linked })
      answered-At (f, throw e) = thrown (record { opened = a.opened; linked = a.linked })

  connected-At :
      (message : Str) (s : Boot l) {r : l.client.State × Reply (ConnectError E) (Unit {0})}
      → At [] s
      → Post
          (λ m _. l.client.connected m ≡ true)
          (λ m x.
            (l.client.connected m ≡ false) × (cause : E) × (x ≡ failed_to_connect message cause))
          r
      → Post (λ s' _. At (mongo_client ∷ []) s') (λ s' _. At [] s') (connected l s r)
  connected-At message s a (returned h) =
      returned (record { opened = ap (λ xs. xs ++ mongo_client ∷ []) a.opened; linked = h })
  connected-At message s a (thrown (h, _, _)) = thrown (record { opened = a.opened; linked = h })

  connects-At :
      (message : Str) (s : Boot l)
      → Closes l.client
      → At [] s
      → Post (λ s' _. At (mongo_client ∷ []) s') (λ s' _. At [] s') (connects l message s)
  unfolding connects
  connects-At message s closing a =
      connected-At message s a (connect_mongo_ends l.client message s.mongo closing)

  -- The next `await`, or synchronous step, after some resources were opened.
  then_At :
      {A B : Type 0} {Q : Boot l → B → Type 0} (service : Service) (rs rs' missing : List Resource)
      (f : A → Starting l B) {r : Boot l × Reply (StartError E) A}
      → rs ++ missing ≡ reverse (closes service)
      → Post (λ s _. At rs' s) (λ s _. At rs s) r
      → ((s : Boot l) (a : A) → At rs' s → Post Q (λ s' _. Progress service s') (f a s))
      → Post Q (λ s' _. Progress service s') (continue f r)
  then_At service rs rs' missing f parts p next =
      Post-continue f p next (λ s e a. At-Progress service rs missing s parts a)

  abbrev pub Opened : Service → Boot l → Type 0
  Opened service s = (s.opened ≡ reverse (closes service)) × (l.client.connected s.mongo ≡ true)

  module _ (closing : Closes l.client) where
    abbrev one : List Resource
    one = mongo_client ∷ []

    abbrev three : List Resource
    three = mongo_client ∷ redis_connection ∷ queue ∷ []

    wire_worker_opens :
        (env : WorkerEnv) (redis : RedisOptions) (s : Boot l)
        → At one s
        → Post
            (λ s' _. Opened gateway_worker s')
            (λ s' _. Progress gateway_worker s')
            (wire_worker l env redis s)
    unfolding wire_worker
    wire_worker_opens env redis s a = returned (
      ap (λ rs. ((rs ++ redis_connection ∷ []) ++ dlq_queue ∷ []) ++ worker ∷ []) a.opened,
      a.linked,
    )

    connect_worker_opens :
        (env : WorkerEnv) (s : Boot l)
        → At [] s
        → Post
            (λ s' _. Opened gateway_worker s')
            (λ s' _. Progress gateway_worker s')
            (connect_worker l env s)
    unfolding connect_worker
    connect_worker_opens env s a =
        then_At gateway_worker [] one _
          (λ _ u. continue (wire_worker l env) (redis_of l env.redis_url u)) refl
          (connects-At (text "Failed to connect to MongoDB for gateway-worker.") s closing a)
          (λ u _ b.
            then_At gateway_worker one one _ (wire_worker l env) refl
              (given_or-At one invalid_url (parse_redis_options l.url_of env.redis_url) u b)
              (λ v redis c. wire_worker_opens env redis v c))

    pub start_worker_opens :
        (variables : Str → Option Str) (s : Boot l)
        → s.opened ≡ []
        → l.client.connected s.mongo ≡ false
        → Post
            (λ s' _. Opened gateway_worker s')
            (λ s' _. Progress gateway_worker s')
            (start_worker l variables s)
    unfolding start_worker
    start_worker_opens variables s none_open unlinked =
        then_At gateway_worker [] [] _ (connect_worker l) refl
          (given_or-At [] invalid_environment (load_worker_env l.schemas variables) s
            (record { opened = none_open; linked = unlinked }))
          (λ u env a. connect_worker_opens env u a)

    wire_api_opens :
        (env : ApiEnv) (redis : RedisOptions) (s : Boot l)
        → At one s
        → Post
            (λ s' _. Opened gateway_api s')
            (λ s' _. Progress gateway_api s')
            (wire_api l env redis s)
    unfolding wire_api
    wire_api_opens env redis s a =
        then_At gateway_api three three _ (λ _. listening l env redis) refl
          (on_server-At three (l.server.listen env.api_port)
            (record s { opened = (s.opened ++ redis_connection ∷ []) ++ queue ∷ [] })
            (record {
              opened = ap (λ rs. (rs ++ redis_connection ∷ []) ++ queue ∷ []) a.opened;
              linked = a.linked;
            }))
          (λ t _ b. returned (ap (λ rs. rs ++ app ∷ []) b.opened, b.linked))

    connect_api_opens :
        (env : ApiEnv) (s : Boot l)
        → At [] s
        → Post
            (λ s' _. Opened gateway_api s')
            (λ s' _. Progress gateway_api s')
            (connect_api l env s)
    unfolding connect_api
    connect_api_opens env s a =
        then_At gateway_api [] [] _
          (λ _ t.
            continue (λ _ u. continue (wire_api l env) (redis_of l env.redis_url u))
              (connects l (text "Failed to connect to MongoDB for gateway-api.") t))
          refl (on_server-At [] l.server.register_raw_body s a)
          (λ t _ b.
            then_At gateway_api [] one _
              (λ _ u. continue (wire_api l env) (redis_of l env.redis_url u)) refl
              (connects-At (text "Failed to connect to MongoDB for gateway-api.") t closing b)
              (λ u _ c.
                then_At gateway_api one one _ (wire_api l env) refl
                  (given_or-At one invalid_url (parse_redis_options l.url_of env.redis_url) u c)
                  (λ v redis d. wire_api_opens env redis v d)))

    pub start_api_opens :
        (variables : Str → Option Str) (s : Boot l)
        → s.opened ≡ []
        → l.client.connected s.mongo ≡ false
        → Post
            (λ s' _. Opened gateway_api s')
            (λ s' _. Progress gateway_api s')
            (start_api l variables s)
    unfolding start_api
    start_api_opens variables s none_open unlinked =
        then_At gateway_api [] [] _ (connect_api l) refl
          (given_or-At [] invalid_environment (load_api_env l.schemas variables) s
            (record { opened = none_open; linked = unlinked }))
          (λ u env a. connect_api_opens env u a)
