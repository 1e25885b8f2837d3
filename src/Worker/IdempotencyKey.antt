-- ===== src/Worker/IdempotencyKey.antt =====
-- gateway-worker/src/processors/idempotency-key.ts: a key for an event whose courier gives none.
-- The hash of node:crypto is a parameter.
use fincart_assissment.Common.{◌≡◌, ◌≢◌, refl, [], ◌∷◌, ◌++◌, All}
use fincart_assissment.Common.Text.{Str, text, trim}

pub record IdempotencyKeyInput : Type 0 where
  pub source : Str
  pub event_id : Str
  pub event_type : Str

-- The text that is hashed.
abbrev pub normalized_input : IdempotencyKeyInput → Str
normalized_input input =
    trim input.source
    ++ (text "::" ++ (trim input.event_id ++ (text "::" ++ trim input.event_type)))

-- `sha256` is `createHash('sha256')` with `digest('hex')`.
unfoldable pub build_idempotency_key : (Str → Str) → IdempotencyKeyInput → Str
build_idempotency_key sha256 input = sha256 (normalized_input input)

abbrev ColonFree : Str → Type 0
ColonFree = All (λ c. c ≢ 58)

-- The first separator of a text ends a part without colons.
first_part :
    (s s' r r' : Str)
    → ColonFree s
    → ColonFree s'
    → s ++ 58 ∷ 58 ∷ r ≡ s' ++ 58 ∷ 58 ∷ r'
    → (s ≡ s') × (r ≡ r')
first_part [] [] r r' h h' e = (refl, cc)
first_part [] (c ∷ s') r r' h h' e = absurd (h'.0 cc)
first_part (c ∷ s) [] r r' h h' e = absurd (h.0 cc)
first_part (c ∷ s) (c' ∷ s') r r' h h' e =
    let rest : (s ≡ s') × (r ≡ r') = first_part s s' r r' h.1 h'.1 cc in (cc, rest.1)

abbrev after_source : IdempotencyKeyInput → Str
after_source input = trim input.event_id ++ 58 ∷ 58 ∷ trim input.event_type

-- Events whose sources and ids have no colons are told apart by the text that is hashed: it is the
-- same only if the three fields are the same but for the spaces around them.
pub normalized_input-injective :
    (a b : IdempotencyKeyInput)
    → ColonFree (trim a.source)
    → ColonFree (trim a.event_id)
    → ColonFree (trim b.source)
    → ColonFree (trim b.event_id)
    → normalized_input a ≡ normalized_input b
    → (trim a.source ≡ trim b.source)
      × (trim a.event_id ≡ trim b.event_id)
      × (trim a.event_type ≡ trim b.event_type)
normalized_input-injective a b p p' q q' e =
    let (source, more) =
      first_part (trim a.source) (trim b.source) (after_source a) (after_source b) p q e in
    let (id, type) =
      first_part (trim a.event_id) (trim b.event_id) (trim a.event_type) (trim b.event_type) p' q'
        more in
    (source, id, type)

-- With colons they are not: a source `a::b` with the id `c` and a source `a` with the id `b::c` have
-- one key, whatever the hash.
abbrev split_late : Str → IdempotencyKeyInput
split_late event_type = record {
  source = text "a::b";
  event_id = text "c";
  event_type = event_type;
}

abbrev split_early : Str → IdempotencyKeyInput
split_early event_type = record {
  source = text "a";
  event_id = text "b::c";
  event_type = event_type;
}

pub build_idempotency_key-collides :
    (sha256 : Str → Str) (event_type : Str)
    → build_idempotency_key sha256 (split_late event_type)
      ≡ build_idempotency_key sha256 (split_early event_type)
unfolding build_idempotency_key trim
build_idempotency_key-collides sha256 event_type = refl
