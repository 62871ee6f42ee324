-- ===== src/Json/Encode.antt =====
-- json.Marshal, as far as the pipeline uses it: strings with HTML escaping, decimal numbers, times
-- and raw messages. Strings are taken for valid UTF-8. Twenty digits are enough for 64 bits.
pub mod Quoted
pub mod Decimal
pub mod Times
pub mod Objects
pub mod Base64
use xyllo.Base.{
  Bytes, codes, Bool, true, false, ◌&&◌, ◌||◌, ◌++◌, ℕ, zero, suc, ◌+◌, ◌-◌, ◌*◌, ◌/◌, ◌%◌, ltb,
  eqb, ℤ, pos, negsuc, Option, none, some, [], ◌∷◌, if◌then◌else◌,
}
use xyllo.Json.Numbers.{is_space}
use xyllo.Json.Parse.{parse}

unfoldable pub hex_letter : ℕ → ℕ
hex_letter d = if ltb d 10 then d + b'0' else d - 10 + b'a'

unfoldable pub unicode_escape : ℕ → Bytes
unfolding hex_letter
unicode_escape c = codes "\\u00" ++ hex_letter (c / 16) ∷ hex_letter (c % 16) ∷ []

unfoldable pub is_html : ℕ → Bool
is_html c = eqb c b'<' || (eqb c b'>' || eqb c b'&')

-- 34 is the quote, 92 the backslash.
unfoldable pub escape_byte : ℕ → Bytes
unfolding unicode_escape is_html
escape_byte c =
    if eqb c 34 || eqb c 92
    then 92 ∷ c ∷ []
    else if eqb c 8
    then codes "\\b"
    else if eqb c 12
    then codes "\\f"
    else if eqb c 10
    then codes "\\n"
    else if eqb c 13
    then codes "\\r"
    else if eqb c 9
    then codes "\\t"
    else if ltb c 32 || is_html c
    then unicode_escape c
    else c ∷ []

-- The last digit of U+2028 or U+2029, if the text begins with one.
unfoldable pub line_separator : Bytes → Option ℕ
line_separator (a ∷ b ∷ c ∷ s) =
    if eqb a 226 && (eqb b 128 && (eqb c 168 || eqb c 169)) then some (c - 168 + b'8') else none
line_separator _ = none

-- The number says how many bytes are done already.
unfoldable pub escape_from : ℕ → Bytes → Bytes
unfolding line_separator escape_byte
escape_from n [] = []
escape_from (suc n) (c ∷ s) = escape_from n s
escape_from zero (c ∷ s) = elim (line_separator (c ∷ s)) [
  | some digit ↦ codes "\\u202" ++ digit ∷ escape_from 2 s
  | none ↦ escape_byte c ++ escape_from 0 s
]

unfoldable pub encode_text : Bytes → Bytes
unfolding escape_from
encode_text s = 34 ∷ escape_from 0 s ++ 34 ∷ []

-- The digits of a number in front of `out`.
unfoldable pub decimal_on : ℕ → ℕ → Bytes → Bytes
decimal_on zero n out = out
decimal_on (suc fuel) n out = elim (ltb n 10) [
  | true ↦ (n + b'0') ∷ out
  | false ↦ decimal_on fuel (n / 10) ((n % 10 + b'0') ∷ out)
]

unfoldable pub encode_integer : ℤ → Bytes
unfolding decimal_on
encode_integer (pos n) = decimal_on 20 n []
encode_integer (negsuc n) = b'-' ∷ decimal_on 20 (n + 1) []

-- Exactly so many digits in front of `out`.
unfoldable pub padded : ℕ → ℕ → Bytes → Bytes
padded zero n out = out
padded (suc width) n out = padded width (n / 10) ((n % 10 + b'0') ∷ out)

-- The nanoseconds behind the second, without zeros at the end.
unfoldable pub fraction : ℕ → ℕ → Bytes
unfolding padded
fraction zero n = []
fraction (suc width) n =
    let shorter = fraction width (n / 10) in
    if eqb n 0 then [] else if eqb (n % 10) 0 then shorter else b'.' ∷ padded (suc width) n []

-- Year, month and day of a day since 1970, in the proleptic Gregorian calendar.
pub civil : ℕ → ℕ × ℕ × ℕ
civil days =
    let z = days + 719468 in
    let era = z / 146097 in
    let doe = z % 146097 in
    let yoe = (doe - doe / 1460 + doe / 36524 - doe / 146096) / 365 in
    let doy = doe - (365 * yoe + yoe / 4 - yoe / 100) in
    let shifted = (5 * doy + 2) / 153 in
    let day = doy - (153 * shifted + 2) / 5 + 1 in
    let month = if ltb shifted 10 then shifted + 3 else shifted - 9 in
    let year = yoe + era * 400 + (if ltb month 3 then 1 else 0) in (year, month, day)

-- A UTC time in nanoseconds since 1970 in RFC 3339; a year above 9999 is an error.
unfoldable pub encode_time : ℕ → Option Bytes
unfolding civil padded fraction
encode_time t =
    let seconds = t / 1000000000 in
    let (year, month, day) = civil (seconds / 86400) in
    let clock = padded 2 (seconds / 3600 % 24) (
      b':'
      ∷ padded 2 (seconds / 60 % 60)
          (b':' ∷ padded 2 (seconds % 60) (fraction 9 (t % 1000000000) ++ b'Z' ∷ 34 ∷ []))) in
    if ltb year 10000
    then some (34 ∷ padded 4 year (b'-' ∷ padded 2 month (b'-' ∷ padded 2 day (b'T' ∷ clock))))
    else none

-- Where a raw message's reading stands with respect to its string literals.
pub data Place : Type 0 where
  outside inside escaped : Place

unfoldable pub place_after : Place → ℕ → Place
place_after outside c = if eqb c 34 then inside else outside
place_after inside c = if eqb c 34 then outside else if eqb c 92 then escaped else inside
place_after escaped c = inside

unfoldable pub compact_byte : Place → ℕ → Bytes
unfolding is_space is_html unicode_escape
compact_byte outside c = if is_space c then [] else c ∷ []
compact_byte inside c = if is_html c then unicode_escape c else c ∷ []
compact_byte escaped c = if is_html c then unicode_escape c else c ∷ []

unfoldable pub compact_from : ℕ → Place → Bytes → Bytes
unfolding line_separator compact_byte place_after
compact_from n at [] = []
compact_from (suc n) at (c ∷ s) = compact_from n at s
compact_from zero at (c ∷ s) = elim (line_separator (c ∷ s)) [
  | some digit ↦ codes "\\u202" ++ digit ∷ compact_from 2 inside s
  | none ↦ compact_byte at c ++ compact_from 0 (place_after at c) s
]

-- A raw message is written without the spaces between its tokens; what is no JSON is an error.
-- The nil message is null; this model does not tell an empty one from it.
unfoldable pub encode_raw : Bytes → Option Bytes
unfolding compact_from parse
encode_raw [] = some (codes "null")
encode_raw (c ∷ s) = elim (parse (c ∷ s)) [
  | none ↦ none
  | some v ↦ some (compact_from 0 outside (c ∷ s))
]
