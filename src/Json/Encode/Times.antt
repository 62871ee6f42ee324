-- ===== src/Json/Encode/Times.antt =====
-- Reading back an encoded time: it is a string literal without escapes.
use xyllo.Base.{
  Bytes, Bool, true, false, ◌++◌, ℕ, zero, suc, ◌+◌, ◌/◌, ◌%◌, ◌≤◌, eqb, ltb, none, some, [], ◌∷◌,
  ◌≡◌, ◌≢◌, refl, sym, ap, ◌∙◌, subst, arith, Bool-cases, inl, inr, if◌then◌else◌, All,
}
use mathlib.Core.List.{append_assoc}
use xyllo.Json.Texts.{unquote}
use xyllo.Json.Encode.{padded, fraction, civil, encode_time}
use xyllo.Json.Encode.Quoted.{IsPlain, unquote-plain}

-- A text in front of a closing quote.
abbrev pub EndsText : Bytes → Type 0
EndsText out = (text : Bytes) × All IsPlain text × (out ≡ text ++ 34 ∷ [])

plain-EndsText : (c : ℕ) (out : Bytes) → IsPlain c → EndsText out → EndsText (c ∷ out)
plain-EndsText c out k (text, all, e) = (c ∷ text, (k, all), ap (λ o. c ∷ o) e)

digit-IsPlain : (n : ℕ) → IsPlain (n % 10 + b'0')
digit-IsPlain n = (omega arith, omega arith, omega arith)

padded-EndsText : (width n : ℕ) (out : Bytes) → EndsText out → EndsText (padded width n out)
unfolding padded
padded-EndsText zero n out h = h
padded-EndsText (suc width) n out h =
    padded-EndsText width (n / 10) ((n % 10 + b'0') ∷ out)
      (plain-EndsText (n % 10 + b'0') out (digit-IsPlain n) h)

padded-append :
    (width n : ℕ) (out rest : Bytes) → padded width n out ++ rest ≡ padded width n (out ++ rest)
unfolding padded
padded-append zero n out rest = refl
padded-append (suc width) n out rest = padded-append width (n / 10) ((n % 10 + b'0') ∷ out) rest

fraction-EndsText : (width n : ℕ) (out : Bytes) → EndsText out → EndsText (fraction width n ++ out)
unfolding fraction
fraction-EndsText zero n out h = h
fraction-EndsText (suc width) n out h = elim (Bool-cases (eqb n 0)) [
  | inl y ↦ rw y h
  | inr k ↦ elim (Bool-cases (eqb (n % 10) 0)) [
    | inl y ↦ rw (k, y) (fraction-EndsText width (n / 10) out h)
    | inr m ↦
        rw (k, m)
          (plain-EndsText b'.' (padded (suc width) n [] ++ out)
            (omega arith, omega arith, omega arith)
            (subst EndsText (sym (padded-append (suc width) n [] out))
              (padded-EndsText (suc width) n out h)))
  ]
]

byte-EndsText : (c : ℕ) (out : Bytes) → c ≢ 34 → c ≢ 92 → 32 ≤ c → EndsText out → EndsText (c ∷ out)
byte-EndsText c out a b l h = plain-EndsText c out (a, b, l) h

-- All that stands behind the opening quote.
abbrev time_text : ℕ → ℕ → ℕ → ℕ → ℕ → ℕ → ℕ → Bytes
time_text year month day h m s ns = padded 4 year (
    b'-'
    ∷ padded 2 month (
        b'-'
        ∷ padded 2 day (
            b'T'
            ∷ padded 2 h
                (b':' ∷ padded 2 m (b':' ∷ padded 2 s (fraction 9 ns ++ b'Z' ∷ 34 ∷ []))))))

time_text-EndsText : (year month day h m s ns : ℕ) → EndsText (time_text year month day h m s ns)
time_text-EndsText year month day h m s ns = padded-EndsText 4 year _ (
    byte-EndsText b'-' _ (omega arith) (omega arith) (omega arith) (
      padded-EndsText 2 month _ (
        byte-EndsText b'-' _ (omega arith) (omega arith) (omega arith) (
          padded-EndsText 2 day _ (
            byte-EndsText b'T' _ (omega arith) (omega arith) (omega arith) (
              padded-EndsText 2 h _ (
                byte-EndsText b':' _ (omega arith) (omega arith) (omega arith) (
                  padded-EndsText 2 m _ (
                    byte-EndsText b':' _ (omega arith) (omega arith) (omega arith) (
                      padded-EndsText 2 s _ (
                        fraction-EndsText 9 ns (b'Z' ∷ 34 ∷ []) (
                          byte-EndsText b'Z' (34 ∷ []) (omega arith) (omega arith) (omega arith)
                            ([], tt, refl)))))))))))))

chosen :
    (b : Bool) (rest out : Bytes)
    → (if b then some (34 ∷ rest) else none) ≡ some out
    → EndsText rest
    → (text : Bytes) × (out ≡ 34 ∷ text) × EndsText text
chosen true rest out e h = (rest, cc, h)
chosen false rest out e h = absurd cc

pub encode_time-EndsText :
    (t : ℕ) (out : Bytes)
    → encode_time t ≡ some out
    → (rest : Bytes) × (out ≡ 34 ∷ rest) × EndsText rest
unfolding encode_time
encode_time-EndsText t out e =
    let seconds = t / 1000000000 in
    let date = civil (seconds / 86400) in
    chosen (ltb date.0 10000)
      (time_text date.0 date.1 date.2 (seconds / 3600 % 24) (seconds / 60 % 60) (seconds % 60)
        (t % 1000000000))
      out e
      (time_text-EndsText date.0 date.1 date.2 (seconds / 3600 % 24) (seconds / 60 % 60)
        (seconds % 60) (t % 1000000000))

-- An encoded time is read as a string, whatever follows it.
pub unquote-encode_time :
    (t : ℕ) (out rest : Bytes)
    → encode_time t ≡ some out
    → (s : Bytes) × (text : Bytes) × (out ++ rest ≡ 34 ∷ s) × (unquote s ≡ some (text, rest))
unfolding unquote
unquote-encode_time t out rest e =
    let (s, opening, (text, all, same)) = encode_time-EndsText t out e in
    (
      text ++ 34 ∷ rest,
      text,
      ap (λ o. o ++ rest) (opening ∙ ap (λ o. 34 ∷ o) same)
          ∙ ap (λ o. 34 ∷ o) (append_assoc text (34 ∷ []) rest),
      unquote-plain text rest all,
    )
