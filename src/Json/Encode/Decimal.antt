-- ===== src/Json/Encode/Decimal.antt =====
-- Reading back an encoded integer in front of a comma.
use xyllo.Base.{
  Bytes, Bool, true, false, ◌++◌, ℕ, zero, suc, ◌+◌, ◌*◌, ◌/◌, ◌%◌, ◌<◌, ◌≤◌, ltb, some, [], ◌∷◌,
  ◌≡◌, refl, sym, ap, ◌∙◌, arith, Bool-cases, inl, inr, ℤ, pos, negsuc, pos_part, neg_part, ◌-ℤ◌,
}
use xyllo.Json.{Number}
use xyllo.Json.Numbers.{
  digits_from, is_digit, whole_part, fraction_part, exponent_part, unsigned_number, parse_number,
}
use xyllo.Json.Encode.{decimal_on, encode_integer}

-- Ten to a number, by recursion.
abbrev pub tens : ℕ → ℕ
tens zero = 1
tens (suc k) = tens k * 10

pub decimal_on-small :
    (fuel n : ℕ) (out : Bytes) → ltb n 10 ≡ true → decimal_on (suc fuel) n out ≡ (n + b'0') ∷ out
unfolding decimal_on
decimal_on-small fuel n out e = rw (e, decimal_on) refl

pub decimal_on-large :
    (fuel n : ℕ) (out : Bytes)
    → ltb n 10 ≡ false
    → decimal_on (suc fuel) n out ≡ decimal_on fuel (n / 10) ((n % 10 + b'0') ∷ out)
unfolding decimal_on
decimal_on-large fuel n out e = rw (e, decimal_on) refl

-- One more digit.
digits_from-digit :
    (acc d k : ℕ) (out : Bytes)
    → d < 10
    → digits_from acc k ((d + b'0') ∷ out) ≡ digits_from (acc * 10 + d) (k + 1) out
unfolding digits_from is_digit
digits_from-digit acc d k out l = ground arith

last_digit :
    (n k : ℕ) (out : Bytes)
    → digits_from (n / 10) k ((n % 10 + b'0') ∷ out) ≡ digits_from n (k + 1) out
last_digit n k out =
    let whole : n / 10 * 10 + n % 10 ≡ n = omega arith in
    digits_from-digit (n / 10) (n % 10) k out (omega arith)
    ∙ ap (λ m. digits_from m (k + 1) out) whole

same_digits :
    (a b i j : ℕ) (out : Bytes) → a ≡ b → i ≡ j → digits_from a i out ≡ digits_from b j out
same_digits a b i j out p q = rw (p, q) refl

-- The printed digits are read from nothing to the number.
digits_from-decimal_on :
    (fuel n k : ℕ) (out : Bytes)
    → n < tens (suc fuel)
    → (m : ℕ) × (digits_from 0 k (decimal_on (suc fuel) n out) ≡ digits_from n (k + m + 1) out)
digits_from-decimal_on zero n k out l = (
  0,
  ap (digits_from 0 k) (decimal_on-small 0 n out (ground arith))
      ∙ digits_from-digit 0 n k out (omega arith)
      ∙ same_digits (0 * 10 + n) n (k + 1) (k + 0 + 1) out (omega arith) (omega arith),
)
digits_from-decimal_on (suc fuel) n k out l = elim (Bool-cases (ltb n 10)) [
  | inl small ↦ (
    0,
    ap (digits_from 0 k) (decimal_on-small (suc fuel) n out small)
        ∙ digits_from-digit 0 n k out (ground arith)
        ∙ same_digits (0 * 10 + n) n (k + 1) (k + 0 + 1) out (omega arith) (omega arith),
  )
  | inr large ↦
      let (m, ih) = digits_from-decimal_on fuel (n / 10) k ((n % 10 + b'0') ∷ out) (omega arith) in
      (
        suc m,
        ap (digits_from 0 k) (decimal_on-large (suc fuel) n out large)
            ∙ ih
            ∙ last_digit n (k + m + 1) out
            ∙ same_digits n n (k + m + 1 + 1) (k + suc m + 1) out refl (omega arith),
      )
]

-- The first digit is no zero, unless it is the only one.
decimal_on-first :
    (fuel n : ℕ) (out : Bytes)
    → 0 < n
    → n < tens (suc fuel)
    → (c : ℕ) × (s : Bytes) × (decimal_on (suc fuel) n out ≡ c ∷ s) × (b'1' ≤ c) × (c ≤ b'9')
decimal_on-first zero n out l h =
    (n + b'0', out, decimal_on-small 0 n out (ground arith), omega arith, omega arith)
decimal_on-first (suc fuel) n out l h = elim (Bool-cases (ltb n 10)) [
  | inl small ↦ (n + b'0', out, decimal_on-small (suc fuel) n out small, omega arith, ground arith)
  | inr large ↦
      let (c, s, e, low, high) =
        decimal_on-first fuel (n / 10) ((n % 10 + b'0') ∷ out) (ground arith) (omega arith) in
      (c, s, decimal_on-large (suc fuel) n out large ∙ e, low, high)
]

pub decimal_on-append :
    (fuel n : ℕ) (out rest : Bytes)
    → decimal_on fuel n out ++ rest ≡ decimal_on fuel n (out ++ rest)
unfolding decimal_on
decimal_on-append zero n out rest = refl
decimal_on-append (suc fuel) n out rest = elim (Bool-cases (ltb n 10)) [
  | inl small ↦ rw (small, decimal_on) refl
  | inr large ↦
      rw (large, decimal_on) (decimal_on-append fuel (n / 10) ((n % 10 + b'0') ∷ out) rest)
]

whole_part-digits :
    (c n j : ℕ) (s rest : Bytes)
    → b'1' ≤ c
    → c ≤ b'9'
    → digits_from 0 0 (c ∷ s) ≡ (n, j, rest)
    → whole_part (c ∷ s) ≡ some (n, rest)
unfolding whole_part is_digit
whole_part-digits c n j s rest l h e = ground arith

digits_from-comma : (n j : ℕ) (t : Bytes) → digits_from n j (44 ∷ t) ≡ (n, j, 44 ∷ t)
unfolding digits_from is_digit
digits_from-comma n j t = refl

-- A number's digits before a comma.
whole_part-decimal_on :
    (n : ℕ) (t : Bytes) → n < tens 20 → whole_part (decimal_on 20 n (44 ∷ t)) ≡ some (n, 44 ∷ t)
unfolding whole_part decimal_on
whole_part-decimal_on zero t l = refl
whole_part-decimal_on (suc n) t l =
    let (c, s, e, low, high) = decimal_on-first 19 (suc n) (44 ∷ t) (omega arith) l in
    let (m, read) = digits_from-decimal_on 19 (suc n) 0 (44 ∷ t) l in
    ap whole_part e
    ∙ whole_part-digits c (suc n) (0 + m + 1) s (44 ∷ t) low high
        (ap (digits_from 0 0) (sym e) ∙ read ∙ digits_from-comma (suc n) (0 + m + 1) t)

-- The number that an integer's literal is.
abbrev pub number_of : ℤ → Number
number_of (pos n) = record { negative = false; digits = n; exponent = pos 0; whole = true }
number_of (negsuc n) = record { negative = true; digits = n + 1; exponent = pos 0; whole = true }

unsigned-whole :
    (neg : Bool) (n : ℕ) (s t : Bytes)
    → whole_part s ≡ some (n, 44 ∷ t)
    → unsigned_number neg s
      ≡ some (record { negative = neg; digits = n; exponent = pos 0; whole = true }, 44 ∷ t)
unfolding unsigned_number fraction_part exponent_part ◌-ℤ◌
unsigned-whole neg n s t e = rw (e, unsigned_number) refl

unsigned_branch :
    (c : ℕ) (s : Bytes) → b'0' ≤ c → parse_number (c ∷ s) ≡ unsigned_number false (c ∷ s)
unfolding parse_number
unsigned_branch c s low = ground arith

parse_number-positive :
    (n : ℕ) (s t : Bytes)
    → (c : ℕ) × (s' : Bytes) × (s ≡ c ∷ s') × (b'0' ≤ c) × (c ≤ b'9')
    → whole_part s ≡ some (n, 44 ∷ t)
    → parse_number s ≡ some (number_of (pos n), 44 ∷ t)
unfolding parse_number
parse_number-positive n s t (c, s', e, low, high) h =
    ap parse_number e
    ∙ unsigned_branch c s' low
    ∙ ap (unsigned_number false) (sym e)
    ∙ unsigned-whole false n s t h

pub decimal_on-start :
    (n : ℕ) (out : Bytes)
    → n < tens 20
    → (c : ℕ) × (s : Bytes) × (decimal_on 20 n out ≡ c ∷ s) × (b'0' ≤ c) × (c ≤ b'9')
decimal_on-start zero out l = (b'0', out, decimal_on-small 19 0 out refl, omega arith, omega arith)
decimal_on-start (suc n) out l =
    let (c, s, e, low, high) = decimal_on-first 19 (suc n) out (omega arith) l in
    (c, s, e, omega arith, high)

-- An integer of at most twenty digits before a comma is read back.
pub parse_number-encode_integer :
    (i : ℤ) (t : Bytes)
    → pos_part i < tens 20
    → neg_part i < tens 20
    → parse_number (encode_integer i ++ 44 ∷ t) ≡ some (number_of i, 44 ∷ t)
unfolding encode_integer parse_number
parse_number-encode_integer (pos n) t p q =
    ap parse_number (decimal_on-append 20 n [] (44 ∷ t))
    ∙ parse_number-positive n (decimal_on 20 n (44 ∷ t)) t (decimal_on-start n (44 ∷ t) p)
        (whole_part-decimal_on n t p)
parse_number-encode_integer (negsuc n) t p q =
    ap (unsigned_number true) (decimal_on-append 20 (n + 1) [] (44 ∷ t))
    ∙ unsigned-whole true (n + 1) (decimal_on 20 (n + 1) (44 ∷ t)) t
        (whole_part-decimal_on (n + 1) t (omega arith))
