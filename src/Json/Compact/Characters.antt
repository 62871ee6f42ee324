-- ===== src/Json/Compact/Characters.antt =====
-- The compaction of a raw message at a single character of a string literal.
use xyllo.Base.{
  Bytes, false, ◌++◌, ℕ, zero, suc, ◌+◌, ◌-◌, ◌*◌, ◌<◌, eqb, ltb, Option, none, some, [], ◌∷◌, ◌≡◌,
  refl, arith, Bool-cases, Option-cases, inl, inr,
}
use xyllo.Json.Texts.{
  Mode, plainly, escape, hex, is_high, is_low, single, after_unpaired, code_unit, hex_digit,
  hex_read, escape_read, unpaired, broken, closes, goes, char_read, replacement, utf8,
  escaped as unescaped,
}
use xyllo.Json.Encode.{
  Place, outside, inside, escaped, place_after, compact_byte, is_html, unicode_escape,
}

abbrev pub place_of : Mode → Place
place_of (plainly high) = inside
place_of (escape high) = escaped
place_of (hex high left acc) = inside

-- A code unit never ends a literal.
single-goes : (u : ℕ) → (h : Option ℕ) × (out : Bytes) × (single u ≡ goes (plainly h) out)
unfolding single
single-goes u = elim (Bool-cases (is_high u)) [
  | inl y ↦ (some u, [], rw y refl)
  | inr n ↦ elim (Bool-cases (is_low u)) [
    | inl y ↦ (none, replacement, rw (n, y) refl)
    | inr k ↦ (none, utf8 u, rw (n, k) refl)
  ]
]

code_unit-goes :
    (high : Option ℕ) (u : ℕ)
    → (h : Option ℕ) × (out : Bytes) × (code_unit high u ≡ goes (plainly h) out)
unfolding code_unit after_unpaired single
code_unit-goes none u = single-goes u
code_unit-goes (some high) u = elim (Bool-cases (is_low u)) [
  | inl y ↦ (none, utf8 (65536 + (high - 55296) * 1024 + (u - 56320)), rw y refl)
  | inr n ↦ elim (Bool-cases (is_high u)) [
    | inl y ↦ (some u, replacement ++ [], rw (n, y) refl)
    | inr k ↦ (none, replacement ++ utf8 u, rw (n, k) refl)
  ]
]

-- What a character does in a literal and in the literal compacted.
pub data Kept (m : Mode) (c : ℕ) : Type 0 where
  fails : char_read m c ≡ broken → Kept m c
  ends :
      (out : Bytes)
      → char_read m c ≡ closes out
      → compact_byte (place_of m) c ≡ c ∷ []
      → place_after (place_of m) c ≡ outside
      → Kept m c
  keeps :
      (m' : Mode) (out : Bytes)
      → char_read m c ≡ goes m' out
      → compact_byte (place_of m) c ≡ c ∷ []
      → place_after (place_of m) c ≡ place_of m'
      → Kept m c
  rewrites :
      (high : Option ℕ)
      → m ≡ plainly high
      → c < 128
      → char_read m c ≡ goes (plainly none) (unpaired high ++ c ∷ [])
      → compact_byte inside c ≡ unicode_escape c
      → place_after inside c ≡ inside
      → Kept m c

plainly-Kept : (high : Option ℕ) (c : ℕ) → Kept (plainly high) c
unfolding char_read compact_byte place_after is_html
plainly-Kept high c = elim (Bool-cases (eqb c 34)) [
  | inl q ↦ ends (unpaired high) (rw q refl) (ground arith) (rw q refl)
  | inr q ↦ elim (Bool-cases (eqb c 92)) [
    | inl b ↦ keeps (escape high) [] (rw (q, b) refl) (ground arith) (rw (q, b) refl)
    | inr b ↦ elim (Bool-cases (ltb c 32)) [
      | inl l ↦ fails (rw (q, b, l) refl)
      | inr l ↦ elim (Bool-cases (is_html c)) [
        | inl h ↦ rewrites high refl (ground arith) (rw (q, b, l) refl) (rw h refl) (rw (q, b) refl)
        | inr h ↦
            keeps (plainly none) (unpaired high ++ c ∷ []) (rw (q, b, l) refl) (rw h refl)
              (rw (q, b) refl)
      ]
    ]
  ]
]

escaped_not_html : (c d : ℕ) → unescaped c ≡ some d → is_html c ≡ false
unfolding unescaped is_html
escaped_not_html c d e = ground arith

escape-Kept : (high : Option ℕ) (c : ℕ) → Kept (escape high) c
unfolding char_read compact_byte place_after is_html escape_read
escape-Kept high c = elim (Bool-cases (eqb c b'u')) [
  | inl y ↦ keeps (hex high 3 0) [] (rw y refl) (ground arith) refl
  | inr n ↦ elim (Option-cases (unescaped c)) [
    | inl k ↦ fails (rw (n, k) refl)
    | inr (d, k) ↦
        keeps (plainly none) (unpaired high ++ d ∷ []) (rw (n, k) refl)
          (rw (escaped_not_html c d k) refl) refl
  ]
]

hex_digit-kept :
    (c d : ℕ)
    → hex_digit c ≡ some d
    → (compact_byte inside c ≡ c ∷ []) × (place_after inside c ≡ inside)
unfolding hex_digit compact_byte place_after is_html
hex_digit-kept c d e = ground arith

hex_digit-Kept :
    (high : Option ℕ) (left acc c d : ℕ) → hex_digit c ≡ some d → Kept (hex high left acc) c
unfolding char_read hex_read
hex_digit-Kept high zero acc c d k =
    let (h, out, e) = code_unit-goes high (acc * 16 + d) in
    let (byte, place) = hex_digit-kept c d k in keeps (plainly h) out (rw k e) byte place
hex_digit-Kept high (suc left) acc c d k =
    let (byte, place) = hex_digit-kept c d k in
    keeps (hex high left (acc * 16 + d)) [] (rw k refl) byte place

hex-Kept : (high : Option ℕ) (left acc c : ℕ) → Kept (hex high left acc) c
unfolding char_read compact_byte place_after is_html hex_read
hex-Kept high left acc c = elim (Option-cases (hex_digit c)) [
  | inl k ↦ fails (rw k refl)
  | inr (d, k) ↦ hex_digit-Kept high left acc c d k
]

pub char_read-Kept : (m : Mode) (c : ℕ) → Kept m c
char_read-Kept (plainly high) c = plainly-Kept high c
char_read-Kept (escape high) c = escape-Kept high c
char_read-Kept (hex high left acc) c = hex-Kept high left acc c
