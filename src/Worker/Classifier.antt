-- ===== src/Worker/Classifier.antt =====
-- gateway-worker/src/processors/error-classifier.ts, and the values that the worker throws. Of an
-- object the classifier reads its fields `code`, `name` and `message`, each only if it is a text.
pub mod Laws
use fincart_assissment.Common.{Bool, ◌&&◌, ◌||◌, Option, none, some, if◌then◌else◌, []}
use fincart_assissment.Common.Text.{Str, text, str_eq, to_lower_case, includes}
use fincart_assissment.Contracts.{
  ErrorClassification, transient, permanent, ErrorCode, transient_dependency_failure,
  permanent_failure, unknown_error,
}
use fincart_assissment.Worker.Number.Double.{Number}

-- `retryable` is `RetryableProcessingError`, which sets its own `name` and has no `code`; `other`
-- is a value that is neither an object nor a text.
pub data Thrown : Type 0 where
  object : (code name message : Option Str) → Thrown
  retryable : (message : Str) (delay_ms : Number) → Thrown
  plain : Str → Thrown
  other : Thrown

-- `new Error(message)`.
abbrev pub error : Str → Thrown
error message = object none (some (text "Error")) (some message)

pub record ErrorLike : Type 0 where
  pub code : Option Str
  pub name : Option Str
  pub message : Option Str

unfoldable pub as_error_like : Thrown → ErrorLike
as_error_like (object code name message) = record { code = code; name = name; message = message }
as_error_like (retryable message delay_ms) = record {
  code = none;
  name = some (text "RetryableProcessingError");
  message = some message;
}
as_error_like (plain s) = record { code = none; name = none; message = some s }
as_error_like other = record { code = none; name = none; message = none }

pub record ClassifiedError : Type 0 where
  pub classification : ErrorClassification
  pub code : ErrorCode
  pub message : Str

-- `value ?? fallback`.
abbrev pub or_else : Option Str → Str → Str
or_else none fallback = fallback
or_else (some s) fallback = s

-- `value === word`, of a value that may be undefined.
abbrev pub is_text : Option Str → Str → Bool
is_text none word = Bool.false
is_text (some s) word = str_eq s word

unfoldable pub is_dependency_failure : ErrorLike → Bool
is_dependency_failure parsed =
    is_text parsed.code (text "ECONNREFUSED")
    || is_text parsed.code (text "ETIMEDOUT")
    || includes (or_else parsed.name []) (text "Timeout")

unfoldable pub is_permanent_message : Str → Bool
is_permanent_message lower_message =
    includes lower_message (text "validation")
    || includes lower_message (text "malformed")
    || includes lower_message (text "invalid")

unfoldable pub classify_error : Thrown → ClassifiedError
classify_error error =
    let parsed = as_error_like error in
    let message = or_else parsed.message (text "Unknown error") in
    if is_dependency_failure parsed
    then record {
      classification = transient;
      code = transient_dependency_failure;
      message = message;
    }
    else if is_permanent_message (to_lower_case message)
    then record { classification = permanent; code = permanent_failure; message = message }
    else record { classification = transient; code = unknown_error; message = message }
