-- ===== src/Logging.antt =====
-- packages/shared/src/logging/logger.ts: the options of a logger and the fields that a child logger
-- carries. pino's loggers are a parameter.
use fincart_assissment.Common.{
  ◌≡◌, refl, Bool, true, false, Option, none, some, [], ◌∷◌, inl, inr, Bool-cases, if◌then◌else◌,
}
use fincart_assissment.Common.Text.{Str, trim, trim_start, is_empty, is_blank}

pub record CreateLoggerOptions : Type 0 where
  pub service_name : Str
  pub level : Str
  pub pretty : Option Bool

pub record CorrelationFields : Type 0 where
  pub trace_id : Option Str
  pub request_id : Option Str

-- The transport, `pino-pretty` with its options, is told by a truth value.
pub record LoggerOptions : Type 0 where
  pub name : Str
  pub level : Str
  pub service : Str
  pub pretty_transport : Bool

abbrev pub is_true : Option Bool → Bool
is_true none = false
is_true (some b) = b

unfoldable pub create_logger :
    {Logger : Type 0} → (LoggerOptions → Logger) → CreateLoggerOptions → Logger
create_logger pino opts = pino (record {
  name = opts.service_name;
  level = opts.level;
  service = opts.service_name;
  pretty_transport = is_true opts.pretty;
})

-- A text that is empty, of white space only or missing counts as missing.
unfoldable pub normalize_field : Option Str → Option Str
normalize_field none = none
normalize_field (some value) =
    if is_empty value then none else if is_blank value then none else some (trim value)

-- `if (field) { childBindings.field = field; }`: an empty text is no binding.
abbrev pub bound : Option Str → Option Str
bound none = none
bound (some field) = if is_empty field then none else some field

-- The argument of `logger.child`.
unfoldable pub child_bindings : CorrelationFields → CorrelationFields
unfolding normalize_field is_empty is_blank
child_bindings fields = record {
  trace_id = bound (normalize_field fields.trace_id);
  request_id = bound (normalize_field fields.request_id);
}

unfoldable pub with_correlation :
    {Logger : Type 0} → (Logger → CorrelationFields → Logger) → Logger → CorrelationFields → Logger
unfolding child_bindings
with_correlation child logger fields = child logger (child_bindings fields)

-- What a field is bound to: the trimmed text, which is not empty.
pub data Bound : Option Str → Option Str → Type 0 where
  left_out : Bound none none
  blank : (value : Str) → is_blank value ≡ true → Bound (some value) none
  trimmed : (value : Str) → is_blank value ≡ false → Bound (some value) (some (trim value))

normalize_field-Bound : (value : Option Str) → Bound value (bound (normalize_field value))
unfolding normalize_field is_blank is_empty trim trim_start
normalize_field-Bound none = left_out
normalize_field-Bound (some []) = blank [] refl
normalize_field-Bound (some (c ∷ s)) = elim (Bool-cases (is_blank (c ∷ s))) [
  | inl h ↦ rw h (blank (c ∷ s) h)
  | inr h ↦ rw (h, h) (trimmed (c ∷ s) h)
]

-- A child logger carries each of the two fields trimmed, unless it is missing or blank.
pub child_bindings-Bound :
    (fields : CorrelationFields)
    → Bound fields.trace_id (child_bindings fields).trace_id
      × Bound fields.request_id (child_bindings fields).request_id
unfolding child_bindings
child_bindings-Bound fields =
    (normalize_field-Bound fields.trace_id, normalize_field-Bound fields.request_id)
