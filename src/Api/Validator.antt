-- ===== src/Api/Validator.antt =====
-- gateway-api/src/validators/courier-event.schema.ts. The schemas that Zod supplies are a
-- parameter; the object schema that the file builds of them is written out.
pub mod Laws
use fincart_assissment.Common.{
  ℕ, ◌≤◌, ◌≡◌, ◌↔◌, refl, sym, ap, ◌∙◌, Bool, true, false, Option, none, some, [], ◌∷◌, length,
  arith,
}
use fincart_assissment.Common.Chain.{◌>>=◌, bind-eq-some}
use fincart_assissment.Common.Text.{Str, text, trim, is_empty, is_blank}
use mathlib.Core.Option
use mathlib.Core.Option.{some-injective}
use mathlib.Core.Path.{subst}
use fincart_assissment.Contracts.{
  Value, null, bool, num, str, arr, obj, Fields, get_field, CourierEvent,
}

-- A schema gives what it makes of a value; `none` is a `ZodError`.
abbrev pub Schema : Type 0 → Type 0
Schema A = Value → Option A

-- `z.string()`, the methods `trim()`, `min(n)` and `datetime({ offset: true })` of a schema of texts, and
-- `z.record(z.string(), z.unknown())`.
pub record Zod : Type 0 where
  pub string : Schema Str
  pub trimmed : Schema Str → Schema Str
  pub at_least : ℕ → Schema Str → Schema Str
  pub datetime : Schema Str → Schema Str
  pub object : Schema Fields

-- What Zod's documentation says of the first three: the texts, as they are; the text trimmed; and a
-- check of its length.
pub record IsZod (z : Zod) : Type 0 where
  pub texts : (v : Value) (s : Str) → (z.string v ≡ some s) ↔ (v ≡ str s)
  pub trims : (schema : Schema Str) (v : Value) → z.trimmed schema v ≡ Option.map trim (schema v)
  pub measures :
      (n : ℕ) (schema : Schema Str) (v : Value) (s : Str)
      → (z.at_least n schema v ≡ some s) ↔ ((schema v ≡ some s) × (n ≤ length s))

-- `z.string().trim().min(1)`.
abbrev pub nonempty_text : Zod → Schema Str
nonempty_text z = z.at_least 1 (z.trimmed z.string)

-- A field that is absent is `undefined`, which each of the three schemas refuses.
abbrev pub parse : {A : Type 0} → (Value → Option A) → Option Value → Option A
parse schema none = none
parse schema (some v) = schema v

abbrev pub as_object : Value → Option Fields
as_object (obj fs) = some fs
as_object _ = none

-- `courierEventSchema.parse(input)`.
unfoldable pub validate_courier_event : Zod → Value → Option CourierEvent
validate_courier_event z input = do
  fields ← as_object input
  event_id ← parse (nonempty_text z) (get_field fields (text "eventId"))
  event_type ← parse (nonempty_text z) (get_field fields (text "eventType"))
  occurred_at ← parse (z.datetime z.string) (get_field fields (text "occurredAt"))
  source ← parse (nonempty_text z) (get_field fields (text "source"))
  idempotency_key ← parse (nonempty_text z) (get_field fields (text "idempotencyKey"))
  payload ← parse z.object (get_field fields (text "payload"))
  some (record {
    event_id = event_id;
    event_type = event_type;
    occurred_at = occurred_at;
    source = source;
    idempotency_key = idempotency_key;
    payload = payload;
  })
