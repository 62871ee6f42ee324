-- ===== src/Json/Encode/Base64.antt =====
-- The encoding of a byte slice in JSON: base64 with padding, between quotes.
use xyllo.Base.{
  Bytes, ℕ, ◌+◌, ◌-◌, ◌*◌, ◌/◌, ◌%◌, ◌<◌, ltb, leb, eqb, false, ◌&&◌, Option, none, some, [], ◌∷◌,
  ◌++◌, ◌≡◌, refl, ap, ◌∙◌, arith, if◌then◌else◌, All,
}
use xyllo.Json.Numbers.{◌>>=◌}
use xyllo.Json.Texts.{unquote}
use xyllo.Json.Encode.Quoted.{IsPlain, unquote-plain}

unfoldable pub sextet_letter : ℕ → ℕ
sextet_letter d =
    if ltb d 26
    then d + b'A'
    else if ltb d 52
    then d - 26 + b'a'
    else if ltb d 62
    then d - 52 + b'0'
    else if eqb d 62
    then b'+'
    else b'/'

unfoldable pub base64 : Bytes → Bytes
unfolding sextet_letter
base64 [] = []
base64 (a ∷ []) = sextet_letter (a / 4) ∷ sextet_letter (a % 4 * 16) ∷ b'=' ∷ b'=' ∷ []
base64 (a ∷ b ∷ []) =
    sextet_letter (a / 4)
    ∷ sextet_letter (a % 4 * 16 + b / 16)
    ∷ sextet_letter (b % 16 * 4)
    ∷ b'='
    ∷ []
base64 (a ∷ b ∷ c ∷ s) =
    sextet_letter (a / 4)
    ∷ sextet_letter (a % 4 * 16 + b / 16)
    ∷ sextet_letter (b % 16 * 4 + c / 64)
    ∷ sextet_letter (c % 64)
    ∷ base64 s

unfoldable pub encode_bytes : Bytes → Bytes
unfolding base64
encode_bytes s = 34 ∷ base64 s ++ 34 ∷ []

-- Decoding, for what the encoding is good for.
unfoldable pub sextet : ℕ → Option ℕ
sextet c =
    if leb b'A' c && leb c b'Z'
    then some (c - b'A')
    else if leb b'a' c && leb c b'z'
    then some (c - b'a' + 26)
    else if leb b'0' c && leb c b'9'
    then some (c - b'0' + 52)
    else if eqb c b'+'
    then some 62
    else if eqb c b'/'
    then some 63
    else none

last_bytes : ℕ → ℕ → ℕ → Option Bytes
unfolding sextet
last_bytes a b c =
    if eqb c b'='
    then some ((a * 4 + b / 16) ∷ [])
    else (sextet c >>= λ c'. some ((a * 4 + b / 16) ∷ (b % 16 * 16 + c' / 4) ∷ []))

unfoldable pub unbase64 : Bytes → Option Bytes
unfolding sextet last_bytes
unbase64 [] = some []
unbase64 (a ∷ b ∷ c ∷ d ∷ s) =
    let rest = unbase64 s in
    sextet a >>= λ a'. sextet b >>= λ b'.
    if eqb d b'='
    then last_bytes a' b' c
    else (sextet c >>= λ c'. sextet d >>= λ d'. rest >>= λ bytes.
        some ((a' * 4 + b' / 16) ∷ (b' % 16 * 16 + c' / 4) ∷ (c' % 4 * 64 + d') ∷ bytes))
unbase64 _ = none

sextet-sextet_letter : (d : ℕ) → d < 64 → sextet (sextet_letter d) ≡ some d
unfolding sextet sextet_letter
sextet-sextet_letter d l = ground arith

no_padding : (d : ℕ) → eqb (sextet_letter d) b'=' ≡ false
unfolding sextet_letter
no_padding d = ground arith

last_one : (x y : ℕ) → last_bytes x y b'=' ≡ some ((x * 4 + y / 16) ∷ [])
unfolding last_bytes
last_one x y = refl

last_two :
    (x y z : ℕ)
    → z < 64
    → last_bytes x y (sextet_letter z) ≡ some ((x * 4 + y / 16) ∷ (y % 16 * 16 + z / 4) ∷ [])
unfolding last_bytes
last_two x y z l = rw (no_padding z) (rw (sextet-sextet_letter z l) refl)

padded_quad :
    (x y c : ℕ)
    → x < 64
    → y < 64
    → unbase64 (sextet_letter x ∷ sextet_letter y ∷ c ∷ b'=' ∷ []) ≡ last_bytes x y c
unfolding unbase64
padded_quad x y c lx ly = rw (sextet-sextet_letter x lx) (rw (sextet-sextet_letter y ly) refl)

whole_quad :
    (x y z w : ℕ) (s bytes : Bytes)
    → x < 64
    → y < 64
    → z < 64
    → w < 64
    → unbase64 s ≡ some bytes
    → unbase64 (sextet_letter x ∷ sextet_letter y ∷ sextet_letter z ∷ sextet_letter w ∷ s)
      ≡ some ((x * 4 + y / 16) ∷ (y % 16 * 16 + z / 4) ∷ (z % 4 * 64 + w) ∷ bytes)
unfolding unbase64
whole_quad x y z w s bytes lx ly lz lw e = rw (sextet-sextet_letter x lx) (
    rw (sextet-sextet_letter y ly) (
      rw (no_padding w)
        (rw (sextet-sextet_letter z lz) (rw (sextet-sextet_letter w lw) (rw e refl)))))

three_equal :
    (a b c a' b' c' : ℕ) (s : Bytes)
    → a ≡ a'
    → b ≡ b'
    → c ≡ c'
    → some (a ∷ b ∷ c ∷ s) ≡ some (a' ∷ b' ∷ c' ∷ s)
three_equal a b c a' b' c' s e f g = rw (e, f, g) refl

-- Decoding gives back what was encoded.
pub unbase64-base64 : (s : Bytes) → All (λ c. c < 256) s → unbase64 (base64 s) ≡ some s
unfolding base64 unbase64
unbase64-base64 [] h = refl
unbase64-base64 (a ∷ []) (la, _) =
    padded_quad (a / 4) (a % 4 * 16) b'=' (omega arith) (omega arith)
    ∙ last_one (a / 4) (a % 4 * 16)
    ∙ ap (λ x. some (x ∷ [])) (omega arith)
unbase64-base64 (a ∷ b ∷ []) (la, (lb, _)) =
    let first : a / 4 * 4 + (a % 4 * 16 + b / 16) / 16 ≡ a = omega arith in
    let second : (a % 4 * 16 + b / 16) % 16 * 16 + b % 16 * 4 / 4 ≡ b = omega arith in
    padded_quad (a / 4) (a % 4 * 16 + b / 16) (sextet_letter (b % 16 * 4)) (omega arith)
      (omega arith)
    ∙ last_two (a / 4) (a % 4 * 16 + b / 16) (b % 16 * 4) (omega arith)
    ∙ ap (λ x. some (x ∷ ((a % 4 * 16 + b / 16) % 16 * 16 + b % 16 * 4 / 4) ∷ [])) first
    ∙ ap (λ x. some (a ∷ x ∷ [])) second
unbase64-base64 (a ∷ b ∷ c ∷ s) (la, (lb, (lc, h))) =
    whole_quad (a / 4) (a % 4 * 16 + b / 16) (b % 16 * 4 + c / 64) (c % 64) (base64 s) s
      (omega arith) (omega arith) (omega arith) (omega arith) (unbase64-base64 s h)
    ∙ three_equal (a / 4 * 4 + (a % 4 * 16 + b / 16) / 16)
        ((a % 4 * 16 + b / 16) % 16 * 16 + (b % 16 * 4 + c / 64) / 4)
        ((b % 16 * 4 + c / 64) % 4 * 64 + c % 64) a b c s (omega arith) (omega arith) (omega arith)

sextet_letter-IsPlain : (d : ℕ) → IsPlain (sextet_letter d)
unfolding sextet_letter
sextet_letter-IsPlain d = (ground arith, ground arith, ground arith)

padding-IsPlain : IsPlain b'='
padding-IsPlain = (omega arith, omega arith, omega arith)

pub base64-IsPlain : (s : Bytes) → All IsPlain (base64 s)
unfolding base64
base64-IsPlain [] = tt
base64-IsPlain (a ∷ []) = (
  sextet_letter-IsPlain (a / 4),
  (sextet_letter-IsPlain (a % 4 * 16), (padding-IsPlain, (padding-IsPlain, tt))),
)
base64-IsPlain (a ∷ b ∷ []) = (
  sextet_letter-IsPlain (a / 4),
  (
    sextet_letter-IsPlain (a % 4 * 16 + b / 16),
    (sextet_letter-IsPlain (b % 16 * 4), (padding-IsPlain, tt)),
  ),
)
base64-IsPlain (a ∷ b ∷ c ∷ s) = (
  sextet_letter-IsPlain (a / 4),
  (
    sextet_letter-IsPlain (a % 4 * 16 + b / 16),
    (
      sextet_letter-IsPlain (b % 16 * 4 + c / 64),
      (sextet_letter-IsPlain (c % 64), base64-IsPlain s),
    ),
  ),
)

-- An encoded byte slice is read as the string of its base64 text.
pub unquote-encode_bytes :
    (s rest : Bytes) → unquote (base64 s ++ 34 ∷ rest) ≡ some (base64 s, rest)
unfolding unquote
unquote-encode_bytes s rest = unquote-plain (base64 s) rest (base64-IsPlain s)
