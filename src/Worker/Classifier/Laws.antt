-- ===== src/Worker/Classifier/Laws.antt =====
-- error-classifier.ts: which errors are permanent.
use fincart_assissment.Common.{
  ◌≡◌, ◌↔◌, ◌⊎◌, refl, ap, Bool, true, false, ◌||◌, ◌++◌, [], Option, none, some, arith,
}
use mathlib.Core.Option.{some-injective}
use fincart_assissment.Common.Text.{Str, text, to_lower_case, includes}
use fincart_assissment.Common.Text.Laws.{str_eq_sound, str_eq_refl}
use fincart_assissment.Common.Text.Inclusion.{Contains, includes_iff}
use fincart_assissment.Contracts.{permanent, transient_dependency_failure, permanent_failure}
use fincart_assissment.Worker.Classifier.{
  Thrown, object, retryable, plain, other, error, as_error_like, or_else, is_text,
  is_dependency_failure, is_permanent_message, classify_error,
}

-- What the classifier is to read of a thrown value.
abbrev pub code_of : Thrown → Option Str
code_of (object code name message) = code
code_of _ = none

abbrev pub name_of : Thrown → Str
name_of (object code (some name) message) = name
name_of (retryable message delay_ms) = text "RetryableProcessingError"
name_of _ = []

abbrev pub message_of : Thrown → Str
message_of (object code name (some message)) = message
message_of (retryable message delay_ms) = message
message_of (plain s) = s
message_of _ = text "Unknown error"

-- The connection was refused or timed out, or the name of the error tells of a timeout.
abbrev pub IsDependencyFailure : Thrown → Type 0
IsDependencyFailure e =
    (code_of e ≡ some (text "ECONNREFUSED"))
    ⊎ (code_of e ≡ some (text "ETIMEDOUT"))
    ⊎ Contains (name_of e) (text "Timeout")

-- The message has one of the three words, in whatever case.
abbrev pub IsInvalid : Thrown → Type 0
IsInvalid e =
    Contains (to_lower_case (message_of e)) (text "validation")
    ⊎ Contains (to_lower_case (message_of e)) (text "malformed")
    ⊎ Contains (to_lower_case (message_of e)) (text "invalid")

abbrev dependency : Thrown → Bool
dependency e = is_dependency_failure (as_error_like e)

abbrev invalid : Thrown → Bool
invalid e = is_permanent_message (to_lower_case (message_of e))

is_text_iff : (o : Option Str) (word : Str) → (is_text o word ≡ true) ↔ (o ≡ some word)
is_text_iff none word = (λ h. absurd (cc), λ h. absurd (cc))
is_text_iff (some s) word =
    (λ h. ap some (str_eq_sound s word h), λ h. rw (some-injective _ _ h) (str_eq_refl word))

or3_iff :
    {P Q R : Type 0} (a b c : Bool)
    → (a ≡ true) ↔ P
    → (b ≡ true) ↔ Q
    → (c ≡ true) ↔ R
    → ((a || b || c) ≡ true) ↔ (P ⊎ Q ⊎ R)
or3_iff a b c f g h = ground arith

read_code : (e : Thrown) → (as_error_like e).code ≡ code_of e
unfolding as_error_like
read_code (object code name message) = refl
read_code (retryable message delay_ms) = refl
read_code (plain s) = refl
read_code other = refl

read_name : (e : Thrown) → or_else (as_error_like e).name [] ≡ name_of e
unfolding as_error_like
read_name (object code none message) = refl
read_name (object code (some name) message) = refl
read_name (retryable message delay_ms) = refl
read_name (plain s) = refl
read_name other = refl

read_message :
    (e : Thrown) → or_else (as_error_like e).message (text "Unknown error") ≡ message_of e
unfolding as_error_like
read_message (object code name none) = refl
read_message (object code name (some message)) = refl
read_message (retryable message delay_ms) = refl
read_message (plain s) = refl
read_message other = refl

dependency_iff : (e : Thrown) → (dependency e ≡ true) ↔ IsDependencyFailure e
unfolding is_dependency_failure
dependency_iff e =
    rw (read_code e, read_name e)
      (or3_iff (is_text (code_of e) (text "ECONNREFUSED")) (is_text (code_of e) (text "ETIMEDOUT"))
        (includes (name_of e) (text "Timeout")) (is_text_iff (code_of e) (text "ECONNREFUSED"))
        (is_text_iff (code_of e) (text "ETIMEDOUT")) (includes_iff (name_of e) (text "Timeout")))

invalid_iff : (e : Thrown) → (invalid e ≡ true) ↔ IsInvalid e
unfolding is_permanent_message
invalid_iff e =
    let m = to_lower_case (message_of e) in
    or3_iff (includes m (text "validation")) (includes m (text "malformed"))
      (includes m (text "invalid")) (includes_iff m (text "validation"))
      (includes_iff m (text "malformed")) (includes_iff m (text "invalid"))

-- The three cases.
classified_by :
    (e : Thrown)
    → (((classify_error e).code ≡ transient_dependency_failure) ↔ (dependency e ≡ true))
      × (((classify_error e).code ≡ permanent_failure)
          ↔ ((dependency e ≡ false) × (invalid e ≡ true)))
      × (((classify_error e).classification ≡ permanent)
          ↔ ((classify_error e).code ≡ permanent_failure))
      × ((classify_error e).message ≡ message_of e)
unfolding classify_error
classified_by e = rw (read_message e) (ground arith)

-- The code of an error is TRANSIENT_DEPENDENCY_FAILURE exactly when its code is ECONNREFUSED or
-- ETIMEDOUT or its name has the word Timeout in it. Otherwise it is PERMANENT_FAILURE exactly when the
-- message, in lower case, has one of the words validation, malformed and invalid in it, and these errors
-- are the permanent ones: every other, an unknown one too, is transient. The message is kept as it was.
pub classify_error_lem :
    (e : Thrown)
    → (((classify_error e).code ≡ transient_dependency_failure) ↔ IsDependencyFailure e)
      × (((classify_error e).code ≡ permanent_failure) ↔ ((¬ IsDependencyFailure e) × IsInvalid e))
      × (((classify_error e).classification ≡ permanent)
          ↔ ((¬ IsDependencyFailure e) × IsInvalid e))
      × ((classify_error e).message ≡ message_of e)
classify_error_lem e =
    let (failed, permanently, classified, message) = classified_by e in
    let d = dependency_iff e in
    let v = invalid_iff e in
    let both : ((dependency e ≡ false) × (invalid e ≡ true))
        ↔ ((¬ IsDependencyFailure e) × IsInvalid e) =
      (
        λ (unfailed, word). (λ failure. absurd (let found = d.1 failure in cc), v.0 word),
        λ (unfailed, word). (not_true (dependency e) (λ h. unfailed (d.0 h)), v.1 word),
      ) in
    (
      (λ h. d.0 (failed.0 h), λ h. failed.1 (d.1 h)),
      (λ h. both.0 (permanently.0 h), λ h. permanently.1 (both.1 h)),
      (λ h. both.0 (permanently.0 (classified.0 h)), λ h. classified.1 (permanently.1 (both.1 h))),
      message,
    )
  where
    not_true : (b : Bool) → ¬ (b ≡ true) → b ≡ false
    not_true true h = absurd (h refl)
    not_true false h = refl

missing_invalid :
    (key : Str)
    → includes (to_lower_case (text "Invalid payload: missing " ++ key)) (text "invalid") ≡ true
unfolding to_lower_case includes
missing_invalid key = refl

or_true : (a b c : Bool) → c ≡ true → (a || b || c) ≡ true
or_true a b c h = ground arith

-- The words of the classifier are found in the message of a payload that lacks a field.
missing_message :
    (key : Str)
    → is_permanent_message (to_lower_case (text "Invalid payload: missing " ++ key)) ≡ true
unfolding is_permanent_message
missing_message key =
    let lower_message = to_lower_case (text "Invalid payload: missing " ++ key) in
    or_true (includes lower_message (text "validation")) (includes lower_message (text "malformed"))
      (includes lower_message (text "invalid")) (missing_invalid key)

-- The error of a missing field is permanent, whatever the field is called.
pub missing-permanent :
    (key : Str)
    → (classify_error (error (text "Invalid payload: missing " ++ key))).classification ≡ permanent
unfolding as_error_like is_dependency_failure includes
missing-permanent key =
    let (failed, permanently, classified, message) =
      classified_by (error (text "Invalid payload: missing " ++ key)) in
    classified.1 (permanently.1 (refl, missing_message key))
