-- ===== src/Json/Kept.antt =====
-- The bytes that a value other than a string may begin with or consist of.
use xyllo.Base.{
  Bytes, codes, true, false, ℕ, ◌≤◌, eqb, ◌≡◌, ◌≢◌, subst, arith, Bool-cases, inl, inr, All,
}
use xyllo.Json.{Value, null, bool}
use xyllo.Json.Numbers.{is_space, is_digit}
use xyllo.Json.Parse.{literal, quoted, bracket, brace, digits, start}

-- No space, no quote, and not the first byte of a line separator.
abbrev pub IsKept : ℕ → Type 0
IsKept c = (c ≢ 226) × (c ≢ 34) × (is_space c ≡ false)

letter : (c : ℕ) → b'a' ≤ c → c ≤ b'z' → IsKept c
unfolding is_space
letter c low high = (ground arith, ground arith, ground arith)

ull-IsKept : All IsKept (codes "ull")
ull-IsKept = (
  letter b'u' (omega arith) (omega arith),
  (letter b'l' (omega arith) (omega arith), (letter b'l' (omega arith) (omega arith), tt)),
)

rue-IsKept : All IsKept (codes "rue")
rue-IsKept = (
  letter b'r' (omega arith) (omega arith),
  (letter b'u' (omega arith) (omega arith), (letter b'e' (omega arith) (omega arith), tt)),
)

alse-IsKept : All IsKept (codes "alse")
alse-IsKept = (
  letter b'a' (omega arith) (omega arith),
  (
    letter b'l' (omega arith) (omega arith),
    (letter b's' (omega arith) (omega arith), (letter b'e' (omega arith) (omega arith), tt)),
  ),
)

literal_text : (t text : Bytes) (w v : Value) → literal t w ≡ literal text v → t ≡ text
literal_text t text w v e = cc

-- What a value may begin with.
pub start-literal :
    (c : ℕ) (text : Bytes) (v : Value) → start c ≡ literal text v → IsKept c × All IsKept text
unfolding start is_space is_digit
start-literal c text v e = elim (Bool-cases (eqb c b'n')) [
  | inl y ↦ (
    letter c (ground arith) (ground arith),
    subst (All IsKept) (literal_text (codes "ull") text null v (rw y at e)) ull-IsKept,
  )
  | inr n ↦ elim (Bool-cases (eqb c b't')) [
    | inl y ↦ (
      letter c (ground arith) (ground arith),
      subst (All IsKept) (literal_text (codes "rue") text (bool true) v (rw (n, y) at e))
          rue-IsKept,
    )
    | inr t ↦ elim (Bool-cases (eqb c b'f')) [
      | inl y ↦ (
        letter c (ground arith) (ground arith),
        subst (All IsKept) (literal_text (codes "alse") text (bool false) v (rw (n, t, y) at e))
            alse-IsKept,
      )
      | inr f ↦ absurd (ground arith)
    ]
  ]
]

pub start-quoted : (c : ℕ) → start c ≡ quoted → c ≡ 34
unfolding start is_digit
start-quoted c e = ground arith

pub start-digits : (c : ℕ) → start c ≡ digits → IsKept c
unfolding start is_space is_digit
start-digits c e = (ground arith, ground arith, ground arith)

pub start-bracket : (c : ℕ) → start c ≡ bracket → IsKept c
unfolding start is_space is_digit
start-bracket c e = (ground arith, ground arith, ground arith)

pub start-brace : (c : ℕ) → start c ≡ brace → IsKept c
unfolding start is_space is_digit
start-brace c e = (ground arith, ground arith, ground arith)
