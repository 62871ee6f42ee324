-- ===== src/Dlq/Lines.antt =====
-- The lines of the dead letter file and log: each is one line, and the entry can be recovered from it.
use xyllo.Base.{
  Bytes, codes, ◌||◌, ◌++◌, ℕ, zero, suc, ◌+◌, ◌-◌, ◌/◌, ◌%◌, ◌≤◌, ltb, eqb, some, [], ◌∷◌, ◌≡◌,
  sym, subst, arith, Bool-cases, inl, inr, All, All-append,
}
use xyllo.Json.Encode.{
  hex_letter, unicode_escape, is_html, escape_byte, escape_from, encode_text, encode_time,
}
use xyllo.Json.Encode.Quoted.{IsPlain, separator_cases}
use xyllo.Json.Encode.Times.{encode_time-EndsText}
use xyllo.Json.Encode.Base64.{base64, encode_bytes, base64-IsPlain}

-- No control character, and so no end of the line.
abbrev pub IsOneLine : Bytes → Type 0
IsOneLine s = All (λ c. 32 ≤ c) s

plain-IsOneLine : (s : Bytes) → All IsPlain s → IsOneLine s
plain-IsOneLine [] h = tt
plain-IsOneLine (c ∷ s) ((_, _, low), h) = (low, plain-IsOneLine s h)

pub joined : (s t : Bytes) → IsOneLine s → IsOneLine t → IsOneLine (s ++ t)
joined s t h k = All-append (λ c. 32 ≤ c) s t h k

hex_letter-low : (d : ℕ) → 32 ≤ hex_letter d
unfolding hex_letter
hex_letter-low d = ground arith

unicode_escape-IsOneLine : (c : ℕ) → IsOneLine (unicode_escape c)
unfolding unicode_escape
unicode_escape-IsOneLine c = (
  omega arith,
  (
    omega arith,
    (omega arith, (omega arith, (hex_letter-low (c / 16), (hex_letter-low (c % 16), tt)))),
  ),
)

two_bytes : (c : ℕ) → 32 ≤ c → IsOneLine (92 ∷ c ∷ [])
two_bytes c l = (omega arith, (l, tt))

escape_byte-IsOneLine : (c : ℕ) → IsOneLine (escape_byte c)
unfolding escape_byte
escape_byte-IsOneLine c = elim (Bool-cases (eqb c 34 || eqb c 92)) [
  | inl y ↦ rw y (two_bytes c (ground arith))
  | inr n₁ ↦ elim (Bool-cases (eqb c 8)) [
    | inl y ↦ rw (n₁, y) (two_bytes b'b' (omega arith))
    | inr n₂ ↦ elim (Bool-cases (eqb c 12)) [
      | inl y ↦ rw (n₁, n₂, y) (two_bytes b'f' (omega arith))
      | inr n₃ ↦ elim (Bool-cases (eqb c 10)) [
        | inl y ↦ rw (n₁, n₂, n₃, y) (two_bytes b'n' (omega arith))
        | inr n₄ ↦ elim (Bool-cases (eqb c 13)) [
          | inl y ↦ rw (n₁, n₂, n₃, n₄, y) (two_bytes b'r' (omega arith))
          | inr n₅ ↦ elim (Bool-cases (eqb c 9)) [
            | inl y ↦ rw (n₁, n₂, n₃, n₄, n₅, y) (two_bytes b't' (omega arith))
            | inr n₆ ↦ elim (Bool-cases (ltb c 32 || is_html c)) [
              | inl y ↦ rw (n₁, n₂, n₃, n₄, n₅, n₆, y) (unicode_escape-IsOneLine c)
              | inr n ↦ rw (n₁, n₂, n₃, n₄, n₅, n₆, n) (ground arith, tt)
            ]
          ]
        ]
      ]
    ]
  ]
]

escape_from-IsOneLine : (n : ℕ) (s : Bytes) → IsOneLine (escape_from n s)
unfolding escape_from
escape_from-IsOneLine zero [] = tt
escape_from-IsOneLine (suc n) [] = tt
escape_from-IsOneLine (suc n) (c ∷ s) = escape_from-IsOneLine n s
escape_from-IsOneLine zero (c ∷ s) = elim (separator_cases c s) [
  | inl single ↦
      rw (single, escape_from)
        (joined (escape_byte c) (escape_from 0 s) (escape_byte-IsOneLine c)
          (escape_from-IsOneLine 0 s))
  | inr (d, t, e, f, g, q) ↦
      rw (q, escape_from)
        (joined (codes "\\u202") ((d - 168 + b'8') ∷ escape_from 2 s)
          (omega arith, (omega arith, (omega arith, (omega arith, (omega arith, tt)))))
          (omega arith, escape_from-IsOneLine 2 s))
]

pub encode_text-IsOneLine : (s : Bytes) → IsOneLine (encode_text s)
unfolding encode_text
encode_text-IsOneLine s =
    (omega arith, joined (escape_from 0 s) (34 ∷ []) (escape_from-IsOneLine 0 s) (omega arith, tt))

pub encode_bytes-IsOneLine : (s : Bytes) → IsOneLine (encode_bytes s)
unfolding encode_bytes
encode_bytes-IsOneLine s = (
  omega arith,
  joined (base64 s) (34 ∷ []) (plain-IsOneLine (base64 s) (base64-IsPlain s)) (omega arith, tt),
)

pub encode_time-IsOneLine : (t : ℕ) (out : Bytes) → encode_time t ≡ some out → IsOneLine out
encode_time-IsOneLine t out e =
    let (rest, opening, (text, plain, same)) = encode_time-EndsText t out e in
    subst IsOneLine (sym opening) (
      omega arith,
      subst IsOneLine (sym same)
          (joined text (34 ∷ []) (plain-IsOneLine text plain) (omega arith, tt)),
    )
