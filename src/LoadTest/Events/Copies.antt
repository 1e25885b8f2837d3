-- ===== src/LoadTest/Events/Copies.antt =====
-- The loops that make the events of a load test, and what each makes of the list
-- (scripts/load-test/run-load-test.ts, buildEvents).
use fincart_assissment.Common.{
  ℕ, zero, suc, ◌+◌, ◌*◌, ◌/◌, ◌<◌, ◌≡◌, refl, ap, ◌∙◌, true, false, Option, none, some, List, [],
  ◌∷◌, ◌++◌, length, length-append, All, leb, item_at, min, arith,
}
use mathlib.Core.List.{append_assoc}
use fincart_assissment.Common.Text.{Str, str_eq}
use fincart_assissment.Contracts.{Value, get_field}
use fincart_assissment.Hmac.{Hmac}
use fincart_assissment.Signing.{body_object, generate_signed_event}
use fincart_assissment.Signing.Encode.{stringify}
use fincart_assissment.LoadTest.Events.{
  PreparedEvent, Draws, Random, set_at, signing_options, original_event, original_events,
  duplicate_event, source_index, duplicate_events, key_in,
}

-- An event's key is that of its body.
abbrev pub Keyed : PreparedEvent → Type 0
Keyed event =
    (body : Value) × (event.payload.body ≡ stringify body) × (key_in body ≡ event.idempotency_key)

abbrev pub Original : PreparedEvent → Type 0
Original event = (event.is_duplicate ≡ false) × Keyed event

-- A duplicate with the key of an original.
abbrev pub Copy : List PreparedEvent → PreparedEvent → Type 0
Copy originals event =
    (event.is_duplicate ≡ true)
    × Keyed event
    × ((j : ℕ) × (source : PreparedEvent) × (item_at j originals ≡ some source)
        × (event.idempotency_key ≡ source.idempotency_key))

-- `Math.random()` is in [0, 1).
abbrev pub IsRandom : Random → Type 0
IsRandom r = r.top < r.bottom

item_at-append :
    {A : Type 0} (j : ℕ) (xs ys : List A) → j < length xs → item_at j (xs ++ ys) ≡ item_at j xs
item_at-append j [] ys h = absurd (omega arith)
item_at-append zero (x ∷ xs) ys h = refl
item_at-append (suc j) (x ∷ xs) ys h = item_at-append j xs ys (omega arith)

item_at-some :
    {A : Type 0} (j : ℕ) (xs : List A) → j < length xs → (x : A) × (item_at j xs ≡ some x)
item_at-some j [] h = absurd (omega arith)
item_at-some zero (x ∷ xs) h = (x, refl)
item_at-some (suc j) (x ∷ xs) h = item_at-some j xs (omega arith)

set_at-append :
    (k i : ℕ) (event : PreparedEvent) (xs ys : List PreparedEvent)
    → k ≡ length xs + i
    → set_at k event (xs ++ ys) ≡ xs ++ set_at i event ys
set_at-append k i event [] ys h = let e : k ≡ i = omega arith in ap (λ j. set_at j event ys) e
set_at-append zero i event (x ∷ xs) ys h = absurd (omega arith)
set_at-append (suc k) i event (x ∷ xs) ys h = cc (set_at-append k i event xs ys (omega arith))

lt_mul : (a b c : ℕ) → a < b → 0 < c → a * c < b * c
lt_mul a b c h k = grind arith

source_index-lt : (top bottom pool : ℕ) → top < bottom → 0 < pool → top * pool / bottom < pool
source_index-lt top bottom pool h k = grind (arith, lt_mul top bottom pool h k)

module _ (hmac : Hmac) (draws : Draws) (secret : Str) where
  pub length-original_events : (n i : ℕ) → length (original_events hmac draws secret n i) ≡ n
  unfolding original_events
  length-original_events zero i = refl
  length-original_events (suc n) i = omega (arith, length-original_events n (suc i))

  pub original_events-All : (n i : ℕ) → All Original (original_events hmac draws secret n i)
  unfolding original_events original_event generate_signed_event
  original_events-All zero i = tt
  original_events-All (suc n) i = (
    (refl, (body_object (signing_options secret none) (draws.original i), refl, refl)),
    original_events-All n (suc i),
  )

  -- What the rounds left make of the originals, the duplicates made and the events after them.
  abbrev pub Mixed : List PreparedEvent → ℕ → ℕ → Option (List PreparedEvent) → Type 0
  Mixed firsts count size result =
      (copies : List PreparedEvent) × (rest : List PreparedEvent) × ((result
          ≡ some (firsts ++ (copies ++ rest)))
        × (length copies ≡ count)
        × (length copies + length rest ≡ size)
        × All (Copy firsts) copies
        × All Original rest)

  -- The key that is asked for is the one in the body.
  duplicate_event-Keyed : (i : ℕ) (key : Str) → Keyed (duplicate_event hmac draws secret i key)
  unfolding duplicate_event generate_signed_event body_object get_field str_eq
  duplicate_event-Keyed i key =
      (body_object (signing_options secret (some key)) (draws.duplicate i), refl, refl)

  -- One round: the event after the copies becomes a copy.
  duplicate_events-suc :
      ((i : ℕ) → IsRandom (draws.random i))
      → (firsts : List PreparedEvent) → 0 < length firsts
      → (n : ℕ) (copies : List PreparedEvent) (event : PreparedEvent) (rest : List PreparedEvent)
      → (copy : PreparedEvent) × (Copy firsts copy
          × (duplicate_events hmac draws secret
                (length firsts)
                (suc n)
                (length copies)
                (firsts ++ (copies ++ event ∷ rest))
              ≡ duplicate_events hmac draws secret
                  (length firsts)
                  n
                  (suc (length copies))
                  (firsts ++ (copies ++ copy ∷ rest))))
  unfolding duplicate_events duplicate_event
  duplicate_events-suc random firsts h n copies event rest = (
    copy,
    (
      (refl, duplicate_event-Keyed i source.idempotency_key, (j, source, found, refl)),
      rw (duplicate_events, room, drawn, moved) refl,
    ),
  )
    where
      i : ℕ
      i = length copies

      j : ℕ
      j = source_index hmac draws secret (length firsts) i

      j-lt : j < length firsts
      j-lt =
          source_index-lt (draws.random i).top (draws.random i).bottom (length firsts) (random i) h

      source : PreparedEvent
      source = (item_at-some j firsts j-lt).0

      found : item_at j firsts ≡ some source
      found = (item_at-some j firsts j-lt).1

      copy : PreparedEvent
      copy = duplicate_event hmac draws secret i source.idempotency_key

      room : leb (length (firsts ++ (copies ++ event ∷ rest))) (length firsts + i) ≡ false
      room = ground (
        arith,
        length-append firsts (copies ++ event ∷ rest),
        length-append copies (event ∷ rest),
      )

      drawn : item_at j (firsts ++ (copies ++ event ∷ rest)) ≡ some source
      drawn = item_at-append j firsts (copies ++ event ∷ rest) j-lt ∙ found

      moved :
          set_at (length firsts + i) copy (firsts ++ (copies ++ event ∷ rest))
          ≡ firsts ++ (copies ++ copy ∷ rest)
      moved =
          set_at-append (length firsts + i) i copy firsts (copies ++ event ∷ rest) refl
          ∙ ap (λ l. firsts ++ l) (set_at-append i 0 copy copies (event ∷ rest) (omega arith))

  All-append_one :
      (firsts copies : List PreparedEvent) (copy : PreparedEvent)
      → All (Copy firsts) copies
      → Copy firsts copy
      → All (Copy firsts) (copies ++ copy ∷ [])
  All-append_one firsts [] copy all h = (h, tt)
  All-append_one firsts (c ∷ copies) copy (k, all) h = (k, All-append_one firsts copies copy all h)

  pub duplicate_events-Mixed :
      ((i : ℕ) → IsRandom (draws.random i))
      → (firsts : List PreparedEvent) → 0 < length firsts
      → (n : ℕ) (copies rest : List PreparedEvent) → All (Copy firsts) copies
      → All Original rest
      → (count size : ℕ) → count ≡ length copies + min n (length rest)
      → length copies + length rest ≡ size
      → Mixed firsts count size (
          duplicate_events hmac draws secret
            (length firsts)
            n
            (length copies)
            (firsts ++ (copies ++ rest)))
  unfolding duplicate_events
  duplicate_events-Mixed random firsts h zero copies rest all plain count size e f =
      (copies, rest, (refl, ground arith, f, all, plain))
  duplicate_events-Mixed random firsts h (suc n) copies [] all plain count size e f =
      let past : leb (length (firsts ++ (copies ++ []))) (length firsts + length copies) ≡ true =
        ground (arith, length-append firsts (copies ++ []), length-append copies []) in
      rw (past, duplicate_events) (copies, [], (refl, ground arith, f, all, tt))
  duplicate_events-Mixed random firsts h (suc n) copies (event ∷ rest) all (_, plain) count size e
        f =
      let (copy, (is_copy, next)) = duplicate_events-suc random firsts h n copies event rest in
      let more =
        duplicate_events-Mixed random firsts h n (copies ++ copy ∷ []) rest
          (All-append_one firsts copies copy all is_copy) plain count size
          (ground (arith, length-append copies (copy ∷ [])))
          (omega (arith, length-append copies (copy ∷ []))) in
      let longer : length (copies ++ copy ∷ []) ≡ suc (length copies) =
        omega (arith, length-append copies (copy ∷ [])) in
      rw next (rw (longer, append_assoc copies (copy ∷ []) rest) at more)
