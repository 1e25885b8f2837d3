-- ===== src/Signing/Encode.antt =====
-- `JSON.stringify` and `Buffer.from(text, 'utf-8')`, which scripts/signing/generate-signed-event.ts
-- makes a body with.
use fincart_assissment.Common.{
  ℕ, ◌+◌, ◌-◌, ◌*◌, ◌/◌, ◌%◌, Bool, true, false, ◌&&◌, ◌||◌, [], ◌∷◌, ◌++◌, ltb, leb, ◌==◌,
  if◌then◌else◌,
}
use fincart_assissment.Common.Text.{Str, text}
use fincart_assissment.Contracts.{
  Value, null, bool, num, str, arr, obj, Items, nil, cons, Fields, end, field,
}
use fincart_assissment.Hmac.{Buffer, hex_digit}

-- The halves of a surrogate pair.
abbrev pub is_high : ℕ → Bool
is_high c = leb 0xd800 c && leb c 0xdbff

abbrev pub is_low : ℕ → Bool
is_low c = leb 0xdc00 c && leb c 0xdfff

abbrev pub unicode_escape : ℕ → Str
unfolding hex_digit
unicode_escape c =
    b'\\'
    ∷ b'u'
    ∷ hex_digit (c / 4096 % 16)
    ∷ hex_digit (c / 256 % 16)
    ∷ hex_digit (c / 16 % 16)
    ∷ hex_digit (c % 16)
    ∷ []

-- A code unit that is no part of a pair, in a JSON text.
abbrev pub quoted_unit : ℕ → Str
quoted_unit c =
    if c == 34 || c == 92
    then 92 ∷ c ∷ []
    else if c == 8
    then text "\\b"
    else if c == 9
    then text "\\t"
    else if c == 10
    then text "\\n"
    else if c == 12
    then text "\\f"
    else if c == 13
    then text "\\r"
    else if ltb c 32 || is_high c || is_low c
    then unicode_escape c
    else c ∷ []

unfoldable pub quoted : Str → Str
quoted [] = []
quoted (c ∷ []) = quoted_unit c
quoted (c ∷ d ∷ s) = elim (is_high c && is_low d) [
  | true ↦ c ∷ d ∷ quoted s
  | false ↦ quoted_unit c ++ quoted (d ∷ s)
]

unfoldable mutual
  pub stringify : Value → Str
  stringify null = text "null"
  stringify (bool true) = text "true"
  stringify (bool false) = text "false"
  stringify (num s) = s
  stringify (str s) = 34 ∷ quoted s ++ 34 ∷ []
  stringify (arr vs) = 91 ∷ items_text vs ++ 93 ∷ []
  stringify (obj fs) = 123 ∷ fields_text fs ++ 125 ∷ []

  pub items_text : Items → Str
  items_text nil = []
  items_text (cons v nil) = stringify v
  items_text (cons v (cons u more)) = stringify v ++ 44 ∷ items_text (cons u more)

  pub fields_text : Fields → Str
  fields_text end = []
  fields_text (field k v end) = 34 ∷ quoted k ++ 34 ∷ 58 ∷ stringify v
  fields_text (field k v (field l u more)) =
      34 ∷ quoted k ++ 34 ∷ 58 ∷ stringify v ++ 44 ∷ fields_text (field l u more)

-- A code point of two or of three bytes; a half of a pair alone is written as U+FFFD.
abbrev pub utf8_unit : ℕ → Buffer
utf8_unit c =
    if ltb c 0x80
    then c ∷ []
    else if ltb c 0x800
    then (0xc0 + c / 64) ∷ (0x80 + c % 64) ∷ []
    else if is_high c || is_low c
    then 0xef ∷ 0xbf ∷ 0xbd ∷ []
    else (0xe0 + c / 4096) ∷ (0x80 + c / 64 % 64) ∷ (0x80 + c % 64) ∷ []

abbrev pub utf8_pair : ℕ → ℕ → Buffer
utf8_pair c d =
    let point = 0x10000 + (c - 0xd800) * 1024 + (d - 0xdc00) in
    (0xf0 + point / 262144)
    ∷ (0x80 + point / 4096 % 64)
    ∷ (0x80 + point / 64 % 64)
    ∷ (0x80 + point % 64)
    ∷ []

unfoldable pub utf8 : Str → Buffer
utf8 [] = []
utf8 (c ∷ []) = utf8_unit c
utf8 (c ∷ d ∷ s) = elim (is_high c && is_low d) [
  | true ↦ utf8_pair c d ++ utf8 s
  | false ↦ utf8_unit c ++ utf8 (d ∷ s)
]
