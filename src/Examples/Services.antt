-- ===== src/Examples/Services.antt =====
-- Services kept in memory that do what they are asked for and never throw, and a keyed hash, a
-- clock and schemas to run the code with.
use mathlib.Core.Option
use mathlib.Core.Option.{some-injective}
use fincart_assissment.Common.{
  ◌≤◌, ◌↔◌, leb, ℕ, ◌+◌, ◌%◌, ◌≡◌, refl, false, Option, none, some, List, [], ◌∷◌, ◌++◌,
  if◌then◌else◌, length, arith, Bool-cases, inl, inr,
}
use fincart_assissment.Common.Text.{Str, str_eq, trim}
use fincart_assissment.Contracts.{Value, null, bool, num, str, arr, obj, Fields}
use fincart_assissment.Effects.{ok, throw}
use fincart_assissment.Effects.Post.{returned, thrown}
use fincart_assissment.Services.{updated, found, upserted, Collection, Journal}
use fincart_assissment.Hmac.{Hmac}
use fincart_assissment.Hmac.Verify.{IsDigest}
use fincart_assissment.Api.Validator.{Zod, IsZod}
use fincart_assissment.Worker.Number.Double.{whole}
use fincart_assissment.Worker.World.{Host, Platform}

abbrev pub stored : {D : Type 0} → Str → Option D → (Str → Option D) → Str → Option D
stored key document s j = if str_eq j key then document else s j

abbrev pub memory : {E D : Type 0} → Collection E D
memory {D = D} = record {
  State = Str → Option D;
  view = λ s. s;
  find_one = λ key s. (s, ok (s key));
  update = λ key filter change s.
      (stored key (updated filter change (s key)) s, ok (found filter change (s key)));
  upsert = λ key change fresh s. (stored key (upserted change fresh (s key)) s, ok tt);
  find_one_reads = λ key s. returned ((λ j. refl), refl);
  update_writes = λ key filter change s. returned ((λ j. refl), refl);
  upsert_writes = λ key change fresh s. returned (λ j. refl);
}

abbrev pub log : {E D : Type 0} → Journal E D
log {D = D} = record {
  State = List D;
  entries = λ s. s;
  add = λ d s. (s ++ d ∷ [], ok tt);
  add_appends = λ d s. returned refl;
}

-- A queue that loses every job and throws `error`.
abbrev pub broken : {E D : Type 0} → E → Journal E D
broken {D = D} error = record {
  State = List D;
  entries = λ s. s;
  add = λ d s. (s, throw error);
  add_appends = λ d s. thrown (inl refl);
}

-- A collection that cannot be reached: every operation throws `error`.
abbrev pub unavailable : {E D : Type 0} → E → Collection E D
unavailable {D = D} error = record {
  State = Str → Option D;
  view = λ s. s;
  find_one = λ key s. (s, throw error);
  update = λ key filter change s. (s, throw error);
  upsert = λ key change fresh s. (s, throw error);
  find_one_reads = λ key s. thrown (λ j. refl);
  update_writes = λ key filter change s. thrown (inl (λ j. refl));
  upsert_writes = λ key change fresh s. thrown (inl (λ j. refl));
}

-- A clock that moves by one millisecond when it is read.
abbrev pub ticking : Host
ticking = record { State = ℕ; now = λ t. (t + 1, t); random = λ t. (t, whole 0) }

abbrev pub in_memory : Platform
in_memory = record {
  processed_events = memory;
  active_shipments = memory;
  dead_letter_events = log;
  dlq_queue = log;
  host = ticking;
}

-- A hash of one byte.
abbrev pub short_hash : Hmac
short_hash algorithm secret input = (length secret + length input) % 256 ∷ []

pub short_hash-IsDigest : IsDigest short_hash
short_hash-IsDigest = record {
  bytes = λ algorithm secret input. (omega arith, tt);
  nonempty = λ algorithm secret input e. cc;
}

abbrev pub any_text : Value → Option Str
any_text (str raw) = some raw
any_text _ = none

abbrev pub any_object : Value → Option Fields
any_object (obj fs) = some fs
any_object _ = none

abbrev pub long_enough : ℕ → Option Str → Option Str
long_enough n none = none
long_enough n (some s) = if leb n (length s) then some s else none

abbrev pub schemas : Zod
schemas = record {
  string = any_text;
  trimmed = λ schema v. Option.map trim (schema v);
  at_least = λ n schema v. long_enough n (schema v);
  datetime = λ schema. schema;
  object = any_object;
}

texts : (v : Value) (s : Str) → (any_text v ≡ some s) ↔ (v ≡ str s)
texts null s = (λ h. absurd (cc), λ h. absurd (cc))
texts (bool b) s = (λ h. absurd (cc), λ h. absurd (cc))
texts (num n) s = (λ h. absurd (cc), λ h. absurd (cc))
texts (arr vs) s = (λ h. absurd (cc), λ h. absurd (cc))
texts (obj fs) s = (λ h. absurd (cc), λ h. absurd (cc))
texts (str raw) s = (λ h. cc, λ h. cc)

too_short : {n : ℕ} (t s : Str) → t ≡ s → n ≤ length s → leb n (length t) ≡ false → ⊥
too_short t s same k short = let k' = rw (← same) at k in ground arith

measures :
    (n : ℕ) (o : Option Str) (s : Str)
    → (long_enough n o ≡ some s) ↔ ((o ≡ some s) × (n ≤ length s))
measures n none s = (λ h. absurd (cc), λ (h, k). absurd (cc))
measures n (some t) s = elim (Bool-cases (leb n (length t))) [
  | inl long ↦
      let enough : n ≤ length t = ground arith in
      rw long (λ h. (h, rw (← some-injective _ _ h) enough), λ (h, k). h)
  | inr short ↦
      rw short (λ h. absurd (cc), λ (h, k). absurd (too_short t s (some-injective _ _ h) k short))
]

pub schemas-IsZod : IsZod schemas
schemas-IsZod = record {
  texts = texts;
  trims = λ schema v. refl;
  measures = λ n schema v s. measures n (schema v) s;
}
