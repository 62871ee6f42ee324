-- ===== src/Json/Texts.antt =====
-- The string literals of JSON, as encoding/json unquotes them. Bytes from 128 on are kept, which is
-- right for valid UTF-8.
use xyllo.Base.{
  Bytes, Bool, ◌&&◌, ◌||◌, ℕ, zero, suc, ◌+◌, ◌-◌, ◌*◌, ◌/◌, ◌%◌, ltb, leb, eqb, Option, none, some,
  [], ◌∷◌, ◌++◌, if◌then◌else◌,
}

-- Where the reading of a literal stands. A high surrogate waits for its other half.
pub data Mode : Type 0 where
  plainly : Option ℕ → Mode
  escape : Option ℕ → Mode
  hex : Option ℕ → ℕ → ℕ → Mode

-- What a character does: bytes to put out, and how it goes on.
pub data Reading : Type 0 where
  broken : Reading
  closes : Bytes → Reading
  goes : Mode → Bytes → Reading

-- The encoding of a code point.
unfoldable pub utf8 : ℕ → Bytes
utf8 u =
    if ltb u 128
    then u ∷ []
    else if ltb u 2048
    then (192 + u / 64) ∷ (128 + u % 64) ∷ []
    else if ltb u 65536
    then (224 + u / 4096) ∷ (128 + u / 64 % 64) ∷ (128 + u % 64) ∷ []
    else (240 + u / 262144) ∷ (128 + u / 4096 % 64) ∷ (128 + u / 64 % 64) ∷ (128 + u % 64) ∷ []

-- U+FFFD, which stands for a surrogate without its other half.
abbrev pub replacement : Bytes
replacement = 239 ∷ 191 ∷ 189 ∷ []

abbrev pub unpaired : Option ℕ → Bytes
unpaired none = []
unpaired (some high) = replacement

unfoldable pub is_high : ℕ → Bool
is_high u = leb 55296 u && ltb u 56320

unfoldable pub is_low : ℕ → Bool
is_low u = leb 56320 u && ltb u 57344

unfoldable pub single : ℕ → Reading
unfolding is_high is_low utf8
single u =
    if is_high u
    then goes (plainly (some u)) []
    else if is_low u
    then goes (plainly none) replacement
    else goes (plainly none) (utf8 u)

unfoldable pub after_unpaired : Reading → Reading
after_unpaired broken = broken
after_unpaired (closes out) = closes (replacement ++ out)
after_unpaired (goes m out) = goes m (replacement ++ out)

unfoldable pub code_unit : Option ℕ → ℕ → Reading
unfolding single is_low utf8 after_unpaired
code_unit none u = single u
code_unit (some high) u =
    if is_low u
    then goes (plainly none) (utf8 (65536 + (high - 55296) * 1024 + (u - 56320)))
    else after_unpaired (single u)

unfoldable pub hex_digit : ℕ → Option ℕ
hex_digit c =
    if leb b'0' c && leb c b'9'
    then some (c - b'0')
    else if leb b'a' c && leb c b'f'
    then some (c - b'a' + 10)
    else if leb b'A' c && leb c b'F'
    then some (c - b'A' + 10)
    else none

unfoldable pub escaped : ℕ → Option ℕ
escaped c =
    if eqb c 34 || (eqb c 92 || eqb c b'/')
    then some c
    else if eqb c b'b'
    then some 8
    else if eqb c b'f'
    then some 12
    else if eqb c b'n'
    then some 10
    else if eqb c b'r'
    then some 13
    else if eqb c b't'
    then some 9
    else none

unfoldable pub escape_read : Option ℕ → Option ℕ → Reading
escape_read high none = broken
escape_read high (some c) = goes (plainly none) (unpaired high ++ c ∷ [])

unfoldable pub hex_read : Option ℕ → ℕ → ℕ → Option ℕ → Reading
unfolding code_unit
hex_read high left acc none = broken
hex_read high zero acc (some d) = code_unit high (acc * 16 + d)
hex_read high (suc left) acc (some d) = goes (hex high left (acc * 16 + d)) []

-- 34 is the quote, 92 the backslash; control characters are refused.
unfoldable pub char_read : Mode → ℕ → Reading
unfolding escape_read escaped hex_read hex_digit
char_read (plainly high) c =
    if eqb c 34
    then closes (unpaired high)
    else if eqb c 92
    then goes (escape high) []
    else if ltb c 32
    then broken
    else goes (plainly none) (unpaired high ++ c ∷ [])
char_read (escape high) c =
    if eqb c b'u' then goes (hex high 3 0) [] else escape_read high (escaped c)
char_read (hex high left acc) c = hex_read high left acc (hex_digit c)

abbrev pub prepend : Bytes → Option (Bytes × Bytes) → Option (Bytes × Bytes)
prepend out none = none
prepend out (some (text, rest)) = some (out ++ text, rest)

unfoldable pub unquote_from : Mode → Bytes → Option (Bytes × Bytes)
unfolding char_read
unquote_from m [] = none
unquote_from m (c ∷ s) = elim (char_read m c) [
  | broken ↦ none
  | closes out ↦ some (out, s)
  | goes m' out ↦ prepend out (unquote_from m' s)
]

-- The text of a literal behind its opening quote, and what follows the closing one.
unfoldable pub unquote : Bytes → Option (Bytes × Bytes)
unfolding unquote_from
unquote = unquote_from (plainly none)
