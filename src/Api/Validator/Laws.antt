-- ===== src/Api/Validator/Laws.antt =====
-- gateway-api/src/validators/courier-event.schema.ts: which bodies are accepted.
use fincart_assissment.Common.{
  ◌≤◌, ◌≡◌, ◌↔◌, refl, sym, ap, ◌∙◌, false, Option, none, some, [], ◌∷◌, length, arith,
}
use fincart_assissment.Common.Chain.{bind-eq-some}
use fincart_assissment.Common.Text.{Str, text, trim, is_empty, is_blank}
use mathlib.Core.Option
use mathlib.Core.Option.{some-injective}
use mathlib.Core.Path.{subst}
use fincart_assissment.Contracts.{
  Value, null, bool, num, str, arr, obj, Fields, get_field, CourierEvent,
}
use fincart_assissment.Api.Validator.{
  Schema, Zod, IsZod, nonempty_text, parse, as_object, validate_courier_event,
}

parse-eq-some :
    {A : Type 0} (schema : Value → Option A) (o : Option Value) (a : A)
    → parse schema o ≡ some a
    → (v : Value) × (o ≡ some v) × (schema v ≡ some a)
parse-eq-some schema none a h = absurd (cc)
parse-eq-some schema (some v) a h = (v, refl, h)

as_object-eq-some : (v : Value) (fs : Fields) → as_object v ≡ some fs → v ≡ obj fs
as_object-eq-some (obj fs') fs h = cc
as_object-eq-some null fs h = absurd (cc)
as_object-eq-some (bool b) fs h = absurd (cc)
as_object-eq-some (num n) fs h = absurd (cc)
as_object-eq-some (str s) fs h = absurd (cc)
as_object-eq-some (arr vs) fs h = absurd (cc)

-- A field of the body is a text that is not blank, and the event has it trimmed.
abbrev pub IsTrimmedField : Fields → Str → Str → Type 0
IsTrimmedField fields name value =
    (raw : Str) × (get_field fields name ≡ some (str raw))
    × (value ≡ trim raw)
    × (is_blank raw ≡ false)

-- A field of the body that a schema takes, and what it makes of it.
abbrev pub IsTaken : {A : Type 0} → Schema A → Fields → Str → A → Type 0
IsTaken schema fields name a = (v : Value) × (get_field fields name ≡ some v) × (schema v ≡ some a)

-- What a validated event has of the body.
pub record IsFrom (z : Zod) (fields : Fields) (event : CourierEvent) : Type 0 where
  pub event_id : IsTrimmedField fields (text "eventId") event.event_id
  pub event_type : IsTrimmedField fields (text "eventType") event.event_type
  pub occurred_at : IsTaken (z.datetime z.string) fields (text "occurredAt") event.occurred_at
  pub source : IsTrimmedField fields (text "source") event.source
  pub idempotency_key : IsTrimmedField fields (text "idempotencyKey") event.idempotency_key
  pub payload : IsTaken z.object fields (text "payload") event.payload

nonblank_iff : (s : Str) → (1 ≤ length (trim s)) ↔ (is_blank s ≡ false)
unfolding is_blank is_empty
nonblank_iff s = by_trimmed (trim s)
  where
    by_trimmed : (t : Str) → (1 ≤ length t) ↔ (is_empty t ≡ false)
    by_trimmed [] = (λ h. absurd (omega arith), λ h. absurd (cc))
    by_trimmed (c ∷ t) = (λ _. refl, λ _. omega arith)

module _ (z : Zod) (h : IsZod z) where
  trimmed-some :
      (o : Option Str) (s : Str)
      → Option.map trim o ≡ some s
      → (raw : Str) × (o ≡ some raw) × (s ≡ trim raw)
  trimmed-some none s e = absurd (cc)
  trimmed-some (some raw) s e = (raw, refl, sym (some-injective _ _ e))

  trimmed_field :
      (fields : Fields) (name s : Str)
      → parse (nonempty_text z) (get_field fields name) ≡ some s
      → IsTrimmedField fields name s
  trimmed_field fields name s e =
      let (v, given, accepted) = parse-eq-some (nonempty_text z) (get_field fields name) s e in
      let (made, long) = (h.measures 1 (z.trimmed z.string) v s).0 accepted in
      let (raw, read, trimmed) = trimmed-some (z.string v) s (sym (h.trims z.string v) ∙ made) in
      (
        raw,
        given ∙ ap some ((h.texts v raw).0 read),
        trimmed,
        (nonblank_iff raw).0 (rw trimmed at long),
      )

  parse_trimmed :
      (fields : Fields) (name s : Str)
      → IsTrimmedField fields name s
      → parse (nonempty_text z) (get_field fields name) ≡ some s
  parse_trimmed fields name s (raw, given, trimmed, full) =
      ap (parse (nonempty_text z)) given
      ∙ (h.measures 1 (z.trimmed z.string) (str raw) s).1 (
        h.trims z.string (str raw)
            ∙ (ap (Option.map trim) ((h.texts (str raw) raw).1 refl) ∙ ap some (sym trimmed)),
        rw trimmed ((nonblank_iff raw).1 full),
      )

  parse_taken :
      {A : Type 0} (schema : Schema A) (fields : Fields) (name : Str) (a : A)
      → IsTaken schema fields name a
      → parse schema (get_field fields name) ≡ some a
  parse_taken schema fields name a (v, given, taken) = ap (parse schema) given ∙ taken

  validated-IsFrom :
      (input : Value) (event : CourierEvent)
      → validate_courier_event z input ≡ some event
      → (fields : Fields) × (input ≡ obj fields) × IsFrom z fields event
  unfolding validate_courier_event
  validated-IsFrom input event e = bind-eq-some (as_object input) _ e λ fields e₀ h₀.
      bind-eq-some (parse (nonempty_text z) (get_field fields (text "eventId"))) _ h₀
        λ event_id e₁ h₁.
          bind-eq-some (parse (nonempty_text z) (get_field fields (text "eventType"))) _ h₁
            λ event_type e₂ h₂.
              bind-eq-some (parse (z.datetime z.string) (get_field fields (text "occurredAt"))) _ h₂
                λ occurred_at e₃ h₃.
                  bind-eq-some (parse (nonempty_text z) (get_field fields (text "source"))) _ h₃
                    λ source e₄ h₄.
                      bind-eq-some
                        (parse (nonempty_text z) (get_field fields (text "idempotencyKey"))) _ h₄
                        λ key e₅ h₅.
                          bind-eq-some (parse z.object (get_field fields (text "payload"))) _ h₅
                            λ payload e₆ h₆. (
                              fields,
                              as_object-eq-some input fields e₀,
                              subst (IsFrom z fields) (some-injective _ _ h₆) (record {
                                event_id = trimmed_field fields (text "eventId") event_id e₁;
                                event_type = trimmed_field fields (text "eventType") event_type e₂;
                                occurred_at = parse-eq-some (z.datetime z.string) _ occurred_at e₃;
                                source = trimmed_field fields (text "source") source e₄;
                                idempotency_key =
                                    trimmed_field fields (text "idempotencyKey") key e₅;
                                payload = parse-eq-some z.object _ payload e₆;
                              }),
                            )

  IsFrom-validated :
      (fields : Fields) (event : CourierEvent)
      → IsFrom z fields event
      → validate_courier_event z (obj fields) ≡ some event
  unfolding validate_courier_event
  IsFrom-validated fields event f =
      rw
        (
          parse_trimmed fields (text "eventId") event.event_id f.event_id,
          parse_trimmed fields (text "eventType") event.event_type f.event_type,
          parse_taken (z.datetime z.string) fields (text "occurredAt") event.occurred_at
              f.occurred_at,
          parse_trimmed fields (text "source") event.source f.source,
          parse_trimmed fields (text "idempotencyKey") event.idempotency_key f.idempotency_key,
          parse_taken z.object fields (text "payload") event.payload f.payload,
        )
        refl

  -- A body is accepted exactly when it is an object whose four identifiers are texts that are not
  -- blank, whose time is one that the schema of the times takes and whose payload is one that the
  -- schema of the payloads takes; the event then has the identifiers trimmed, and the time and the
  -- payload as the schemas give them.
  pub validate_courier_event_iff :
      (input : Value) (event : CourierEvent)
      → (validate_courier_event z input ≡ some event)
        ↔ ((fields : Fields) × (input ≡ obj fields) × IsFrom z fields event)
  validate_courier_event_iff input event = (
    validated-IsFrom input event,
    λ (fields, is_object, f).
        ap (validate_courier_event z) is_object ∙ IsFrom-validated fields event f,
  )
