-- ===== src/Health/Laws.antt =====
-- health.ts and health.route.ts: when a service is healthy.
use fincart_assissment.Common.{
  ℕ, ◌+◌, ◌≤◌, ◌≡◌, refl, ◌↔◌, ◌⊎◌, inl, inr, Bool-cases, true, Option, none, some, [], ◌∷◌, arith,
}
use fincart_assissment.Common.Text.{Str, text, str_eq}
use fincart_assissment.Effects.{Reply, ok, throw}
use fincart_assissment.Health.{
  Health, healthy, unhealthy, Connection, connected, disconnected, upper, to_upper_case, is_pong,
  redis_connection, mongo_connection, health_of, status_code, check_worker_health, health_route,
}

-- A code unit is one of two, the upper and the lower case of a letter.
abbrev pub IsEither : ℕ → ℕ → ℕ → Type 0
IsEither c upper_case lower_case = (c ≡ upper_case) ⊎ (c ≡ lower_case)

-- The four letters of `PONG`, each in either case.
abbrev pub SpellsPong : Str → Type 0
SpellsPong (p ∷ o ∷ n ∷ g ∷ []) =
    IsEither p b'P' b'p' × IsEither o b'O' b'o' × IsEither n b'N' b'n' × IsEither g b'G' b'g'
SpellsPong _ = ⊥

-- Redis answered, and with `PONG`, in whatever case.
abbrev pub AnswersPong : {E : Type 0} → Reply E Str → Type 0
AnswersPong (ok result) = SpellsPong result
AnswersPong (throw e) = ⊥

upper_iff :
    (c upper_case : ℕ)
    → b'A' ≤ upper_case
    → upper_case ≤ b'Z'
    → (upper c ≡ upper_case) ↔ IsEither c upper_case (upper_case + 32)
upper_iff c upper_case h k = ground arith

is_pong_iff : (s : Str) → (is_pong s ≡ true) ↔ SpellsPong s
unfolding to_upper_case str_eq
is_pong_iff [] = (λ h. absurd (cc), λ h. absurd h)
is_pong_iff (p ∷ []) = (λ h. absurd (ground arith), λ h. absurd h)
is_pong_iff (p ∷ o ∷ []) = (λ h. absurd (ground arith), λ h. absurd h)
is_pong_iff (p ∷ o ∷ n ∷ []) = (λ h. absurd (ground arith), λ h. absurd h)
is_pong_iff (p ∷ o ∷ n ∷ g ∷ x ∷ s) = (λ h. absurd (ground arith), λ h. absurd h)
is_pong_iff (p ∷ o ∷ n ∷ g ∷ []) =
    let hp = upper_iff p b'P' (omega arith) (omega arith) in
    let ho = upper_iff o b'O' (omega arith) (omega arith) in
    let hn = upper_iff n b'N' (omega arith) (omega arith) in
    let hg = upper_iff g b'G' (omega arith) (omega arith) in
    letters (upper p) (upper o) (upper n) (upper g) hp ho hn hg
  where
    letters :
        (a b c d : ℕ) {P O N G : Type 0}
        → (a ≡ b'P') ↔ P
        → (b ≡ b'O') ↔ O
        → (c ≡ b'N') ↔ N
        → (d ≡ b'G') ↔ G
        → (str_eq (a ∷ b ∷ c ∷ d ∷ []) (text "PONG") ≡ true) ↔ (P × O × N × G)
    letters a b c d hp ho hn hg = ground arith

redis_connection_iff :
    {E : Type 0} (r : Reply E Str) → (redis_connection r ≡ connected) ↔ AnswersPong r
unfolding redis_connection
redis_connection_iff (ok result) = elim (Bool-cases (is_pong result)) [
  | inl pong ↦ rw pong (λ _. (is_pong_iff result).0 pong, λ _. refl)
  | inr other ↦ rw other (λ h. absurd (cc), λ h. absurd (let pong = (is_pong_iff result).1 h in cc))
]
redis_connection_iff (throw e) = ground arith

mongo_connection_iff :
    {E : Type 0} (r : Reply E (Option ℕ)) → (mongo_connection r ≡ connected) ↔ (r ≡ ok (some 1))
unfolding mongo_connection
mongo_connection_iff (ok (some n)) = ground arith
mongo_connection_iff (ok none) = ground arith
mongo_connection_iff (throw e) = ground arith

health_of_iff :
    (redis mongo : Connection)
    → (health_of redis mongo ≡ healthy) ↔ ((redis ≡ connected) × (mongo ≡ connected))
unfolding health_of
health_of_iff connected connected = ground arith
health_of_iff connected disconnected = ground arith
health_of_iff disconnected mongo = ground arith

-- The worker is healthy exactly when Redis answers with `PONG`, in whatever case, and MongoDB
-- answers with 1; an exception of either counts as unhealthy and is not passed on.
pub check_worker_health_iff :
    {E : Type 0} (redis_ping : Reply E Str) (mongo_ping : Reply E (Option ℕ)) (now : ℕ)
    → ((check_worker_health redis_ping mongo_ping now).status ≡ healthy)
      ↔ (AnswersPong redis_ping × (mongo_ping ≡ ok (some 1)))
unfolding check_worker_health
check_worker_health_iff redis_ping mongo_ping now =
    let r = redis_connection_iff redis_ping in
    let m = mongo_connection_iff mongo_ping in
    let h = health_of_iff (redis_connection redis_ping) (mongo_connection mongo_ping) in
    (λ e. let both = h.0 e in (r.0 both.0, m.0 both.1), λ (a, b). h.1 (r.1 a, m.1 b))

-- `GET /health` of the api reports what the worker would, with 200 exactly when that is healthy and
-- with 503 exactly when it is not.
pub health_route_lem :
    {E : Type 0} (redis_ping : Reply E Str) (mongo_ping : Reply E (Option ℕ)) (now : ℕ)
    → ((health_route redis_ping mongo_ping now).1 ≡ check_worker_health redis_ping mongo_ping now)
      × (((health_route redis_ping mongo_ping now).0 ≡ 200)
          ↔ ((check_worker_health redis_ping mongo_ping now).status ≡ healthy))
      × (((health_route redis_ping mongo_ping now).0 ≡ 503)
          ↔ ((check_worker_health redis_ping mongo_ping now).status ≡ unhealthy))
unfolding health_route check_worker_health
health_route_lem redis_ping mongo_ping now = (
  refl,
  code_ok (health_of (redis_connection redis_ping) (mongo_connection mongo_ping)),
  code_down (health_of (redis_connection redis_ping) (mongo_connection mongo_ping)),
)
  where
    code_ok : (h : Health) → (status_code h ≡ 200) ↔ (h ≡ healthy)
    code_ok healthy = (λ _. refl, λ _. refl)
    code_ok unhealthy = (λ e. absurd (omega arith), λ e. cc)

    code_down : (h : Health) → (status_code h ≡ 503) ↔ (h ≡ unhealthy)
    code_down healthy = (λ e. absurd (omega arith), λ e. cc)
    code_down unhealthy = (λ _. refl, λ _. refl)
