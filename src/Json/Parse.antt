-- ===== src/Json/Parse.antt =====
-- The grammar of JSON as the scanner of encoding/json accepts it, and the decoded values. The fuel
-- is above twice the length of the input: of two nested calls one has read a byte. The scanner's limit
-- of 10000 nested levels is left out.
use xyllo.Base.{
  Bytes, codes, true, false, ◌||◌, ℕ, zero, suc, ◌+◌, ◌-◌, eqb, Option, none, some, [], ◌∷◌, length,
  if◌then◌else◌,
}
use xyllo.Json.{Value, null, bool, num, str, arr, obj, Items, nil, cons, Fields, end, field}
use xyllo.Json.Numbers.{◌>>=◌, skip_space, expect, is_digit, parse_number}
use xyllo.Json.Texts.{unquote}

-- The first `n` bytes.
unfoldable pub front : ℕ → Bytes → Bytes
front zero s = []
front (suc n) [] = []
front (suc n) (c ∷ s) = c ∷ front n s

-- The bytes that a reading from `s` to `rest` took.
abbrev pub between : Bytes → Bytes → Bytes
between s rest = front (length s - length rest) s

-- What a document's first byte says.
pub data Start : Type 0 where
  literal : Bytes → Value → Start
  quoted : Start
  bracket : Start
  brace : Start
  digits : Start
  unknown : Start

unfoldable pub start : ℕ → Start
unfolding is_digit
start c =
    if eqb c b'n'
    then literal (codes "ull") null
    else if eqb c b't'
    then literal (codes "rue") (bool true)
    else if eqb c b'f'
    then literal (codes "alse") (bool false)
    else if eqb c 34
    then quoted
    else if eqb c b'['
    then bracket
    else if eqb c b'{'
    then brace
    else if is_digit c || eqb c b'-'
    then digits
    else unknown

-- A member's key and the colon behind it.
unfoldable pub member_key : Bytes → Option (Bytes × Bytes)
unfolding skip_space unquote expect
member_key s = do
  s₁ ← expect (34 ∷ []) (skip_space s)
  (key, s₂) ← unquote s₁
  s₃ ← expect (codes ":") (skip_space s₂)
  some (key, s₃)

-- What follows an element: a comma, the closing character, or an error.
pub data Behind : Type 0 where
  more : Bytes → Behind
  done : Bytes → Behind
  wrong : Behind

unfoldable pub behind_of : ℕ → Bytes → Behind
behind_of close [] = wrong
behind_of close (c ∷ s) = if eqb c b',' then more s else if eqb c close then done s else wrong

unfoldable pub behind : ℕ → Bytes → Behind
unfolding behind_of skip_space
behind close s = behind_of close (skip_space s)

-- An empty array or object: what follows its closing character.
unfoldable pub closed_at_once : ℕ → Bytes → Option Bytes
unfolding expect skip_space
closed_at_once close s = expect (close ∷ []) (skip_space s)

unfoldable mutual
  unfolding front start member_key behind closed_at_once skip_space parse_number unquote expect

  pub parse_value : ℕ → Bytes → Option (Value × Bytes)
  parse_value zero s = none
  parse_value (suc n) [] = none
  parse_value (suc n) (c ∷ s) = elim (start c) [
    | literal text v ↦ expect text s >>= λ rest. some (v, rest)
    | quoted ↦ unquote s >>= λ (text, rest). some (str text, rest)
    | digits ↦ parse_number (c ∷ s) >>= λ (k, rest). some (num k, rest)
    | bracket ↦ elim (closed_at_once b']' s) [
      | some rest ↦ some (arr nil, rest)
      | none ↦ parse_items n s >>= λ (xs, rest). some (arr xs, rest)
    ]
    | brace ↦ elim (closed_at_once b'}' s) [
      | some rest ↦ some (obj end, rest)
      | none ↦ parse_fields n s >>= λ (fs, rest). some (obj fs, rest)
    ]
    | unknown ↦ none
  ]

  pub parse_items : ℕ → Bytes → Option (Items × Bytes)
  parse_items zero s = none
  parse_items (suc n) s = parse_value n (skip_space s) >>= λ (v, rest). elim (behind b']' rest) [
    | more rest' ↦ parse_items n rest' >>= λ (vs, last). some (cons v vs, last)
    | done rest' ↦ some (cons v nil, rest')
    | wrong ↦ none
  ]

  pub parse_fields : ℕ → Bytes → Option (Fields × Bytes)
  parse_fields zero s = none
  parse_fields (suc n) s = member_key s >>= λ (key, s₁).
      let at = skip_space s₁ in
      parse_value n at >>= λ (v, rest).
      let raw = between at rest in
      elim (behind b'}' rest) [
        | more rest' ↦ parse_fields n rest' >>= λ (fs, last). some (field key v raw fs, last)
        | done rest' ↦ some (field key v raw end, rest')
        | wrong ↦ none
      ]

unfoldable pub whole_document : Value × Bytes → Option Value
unfolding skip_space
whole_document (v, rest) = elim (skip_space rest) [ [] ↦ some v | _ ∷ _ ↦ none ]

-- `checkValid` and the value of the document.
unfoldable pub parse : Bytes → Option Value
unfolding parse_value whole_document skip_space
parse s = parse_value (2 + length s + length s) (skip_space s) >>= whole_document
