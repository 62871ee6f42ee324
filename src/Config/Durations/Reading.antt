-- ===== src/Config/Durations/Reading.antt =====
-- What time.ParseDuration makes of a text.
use xyllo.Base.{
  Bytes, codes, ◌==◌, ==_iff, Bool, true, false, ℕ, zero, suc, ◌+◌, ◌-◌, ◌*◌, ◌/◌, ◌%◌, ◌^◌, ◌≤◌,
  ◌<◌, ltb, eqb, ℤ, pos, pos_part, neg_part, ◌-ℤ◌, Option, none, some, [], ◌∷◌, length, inl, inr,
  ◌≡◌, ◌≢◌, refl, sym, ap, ◌∙◌, subst, arith, Bool-cases, All,
}
use native.Mathlib.Nat.{le-div_iff_mul-le, mul-le-mul_left}
use xyllo.Json.Numbers.{is_digit}
use xyllo.Json.Steps.{bind-some, bind-is}
use xyllo.Json.Encode.{decimal_on}
use xyllo.Json.Encode.Decimal.{decimal_on-start, tens, decimal_on-small, decimal_on-large}
use xyllo.Config.Durations.{
  limit, leading_int, is_numeric, unit_name, unit_of, fraction_of, scaled, quantity, quantities,
  magnitude, signed, parse_duration,
}

-- Every duration fits an int64.
signed-fits :
    (neg : Bool) (o : Option ℕ) (d : ℤ)
    → ((m : ℕ) → o ≡ some m → m ≤ limit)
    → signed neg o ≡ some d
    → (pos_part d < 2 ^ 63) × (neg_part d ≤ 2 ^ 63)
unfolding signed ◌-ℤ◌
signed-fits neg none d h e = absurd cc
signed-fits true (some m) d h e = let low = h m refl in ground arith
signed-fits false (some m) d h e = ground arith

nothing_read : {m : ℕ} → none ≢ some m
nothing_read e = absurd cc

quantities-bound :
    (fuel d : ℕ) (s : Bytes) (m : ℕ) → d ≤ limit → quantities fuel d s ≡ some m → m ≤ limit
unfolding quantities
quantities-bound fuel d [] m l e = ground arith
quantities-bound zero d (c ∷ s) m l e = absurd cc
quantities-bound (suc fuel) d (c ∷ s) m l e =
    let ((v, rest), q, e') = bind-some (quantity (c ∷ s)) _ m e in
    elim (Bool-cases (ltb limit (d + v))) [
      | inl y ↦ absurd (nothing_read (rw y at e'))
      | inr n ↦ quantities-bound fuel (d + v) rest m (ground arith) (rw n at e')
    ]

zero_bound : (m : ℕ) → some 0 ≡ some m → m ≤ limit
zero_bound m e = ground arith

magnitude-bound : (s : Bytes) (m : ℕ) → magnitude s ≡ some m → m ≤ limit
unfolding magnitude
magnitude-bound s m e = elim (Bool-cases (s == codes "0")) [
  | inl y ↦ zero_bound m (rw y at e)
  | inr n ↦ elim (Bool-cases (s == [])) [
    | inl y ↦ absurd (nothing_read (rw (n, y) at e))
    | inr k ↦ quantities-bound (length s) 0 s m (omega arith) (rw (n, k) at e)
  ]
]

pub parse_duration-fits :
    (s : Bytes) (d : ℤ) → parse_duration s ≡ some d → (pos_part d < 2 ^ 63) × (neg_part d ≤ 2 ^ 63)
unfolding parse_duration
parse_duration-fits [] d e = absurd cc
parse_duration-fits (c ∷ s) d e = elim (Bool-cases (eqb c b'-')) [
  | inl y ↦ signed-fits true (magnitude s) d (magnitude-bound s) (rw y at e)
  | inr n ↦ elim (Bool-cases (eqb c b'+')) [
    | inl y ↦ signed-fits false (magnitude s) d (magnitude-bound s) (rw (n, y) at e)
    | inr k ↦ signed-fits false (magnitude (c ∷ s)) d (magnitude-bound (c ∷ s)) (rw (n, k) at e)
  ]
]

-- A decimal number with a unit.
leading_int-digit :
    (x d : ℕ) (out : Bytes)
    → d < 10
    → x * 10 + d ≤ limit
    → leading_int x ((d + b'0') ∷ out) ≡ leading_int (x * 10 + d) out
unfolding leading_int is_digit
leading_int-digit x d out l h = ground arith

leading_int-decimal_on :
    (fuel n : ℕ) (out : Bytes)
    → n < tens (suc fuel)
    → n ≤ limit
    → leading_int 0 (decimal_on (suc fuel) n out) ≡ leading_int n out
leading_int-decimal_on zero n out l h =
    ap (leading_int 0) (decimal_on-small 0 n out (ground arith))
    ∙ leading_int-digit 0 n out (omega arith) (omega arith)
    ∙ ap (λ m. leading_int m out) (omega arith)
leading_int-decimal_on (suc fuel) n out l h = elim (Bool-cases (ltb n 10)) [
  | inl small ↦
      ap (leading_int 0) (decimal_on-small (suc fuel) n out small)
      ∙ leading_int-digit 0 n out (ground arith) (omega arith)
      ∙ ap (λ m. leading_int m out) (omega arith)
  | inr large ↦
      let whole : n / 10 * 10 + n % 10 ≡ n = omega arith in
      ap (leading_int 0) (decimal_on-large (suc fuel) n out large)
      ∙ leading_int-decimal_on fuel (n / 10) ((n % 10 + b'0') ∷ out) (omega arith) (omega arith)
      ∙ leading_int-digit (n / 10) (n % 10) out (omega arith) (omega arith)
      ∙ ap (λ m. leading_int m out) whole
]

-- A text without digits and points.
abbrev IsName : Bytes → Type 0
IsName u = All (λ c. is_numeric c ≡ false) u

name_byte : (c : ℕ) → is_numeric c ≡ false → (is_digit c ≡ false) × (eqb c b'.' ≡ false)
unfolding is_numeric
name_byte c h = (ground arith, ground arith)

leading_int-name :
    (x c : ℕ) (u : Bytes) → is_numeric c ≡ false → leading_int x (c ∷ u) ≡ some (x, c ∷ u)
unfolding leading_int
leading_int-name x c u h = let (d, p) = name_byte c h in rw d refl

fraction_of-name :
    (c : ℕ) (u : Bytes) → is_numeric c ≡ false → fraction_of (c ∷ u) ≡ (0, 1, false, c ∷ u)
unfolding fraction_of
fraction_of-name c u h = let (d, p) = name_byte c h in rw p refl

unit_name-name : (u : Bytes) → IsName u → unit_name u ≡ (u, [])
unfolding unit_name
unit_name-name [] h = refl
unit_name-name (c ∷ u) (n, h) = rw n (rw (unit_name-name u h) refl)

not_less : (a b : ℕ) → b ≤ a → ltb a b ≡ false
not_less a b h = ground arith

scaled-whole : (v unit : ℕ) → v * unit ≤ limit → 1 ≤ unit → scaled v 0 1 unit ≡ some (v * unit)
unfolding scaled
scaled-whole v unit l k =
    let below = (le-div_iff_mul-le {k = unit} {x = v} {y = limit} k).1 l in
    let room : ltb (limit / unit) v ≡ false = not_less (limit / unit) v below in rw room refl

one_more : (n : ℕ) (out : Bytes) → length out < length ((n % 10 + b'0') ∷ out)
one_more n out = omega arith

decimal_on-length : (fuel n : ℕ) (out : Bytes) → length out < length (decimal_on (suc fuel) n out)
unfolding decimal_on
decimal_on-length zero n out = elim (Bool-cases (ltb n 10)) [
  | inl small ↦
      subst (λ s. length out < length s) (sym (decimal_on-small 0 n out small)) (omega arith)
  | inr large ↦
      subst (λ s. length out < length s) (sym (decimal_on-large 0 n out large)) (one_more n out)
]
decimal_on-length (suc fuel) n out = elim (Bool-cases (ltb n 10)) [
  | inl small ↦
      subst (λ s. length out < length s) (sym (decimal_on-small (suc fuel) n out small))
        (omega arith)
  | inr large ↦
      let longer = decimal_on-length fuel (n / 10) ((n % 10 + b'0') ∷ out) in
      subst (λ s. length out < length s) (sym (decimal_on-large (suc fuel) n out large))
        (omega arith)
]

unequal : (a b : ℕ) → a < b → eqb a b ≡ false
unequal a b h = ground arith

quantity-made :
    (c : ℕ) (s : Bytes) (v x : ℕ) (u : Bytes) (unit : ℕ)
    → is_numeric c ≡ true
    → leading_int 0 (c ∷ s) ≡ some (v, x ∷ u)
    → length (x ∷ u) < length (c ∷ s)
    → IsName (x ∷ u)
    → unit_of (x ∷ u) ≡ some unit
    → scaled v 0 1 unit ≡ some (v * unit)
    → quantity (c ∷ s) ≡ some (v * unit, [])
unfolding quantity ◌==◌
quantity-made c s v x u unit n int shorter (named, rest) known total =
    let read : eqb (length (x ∷ u)) (length (c ∷ s)) ≡ false =
      unequal (length (x ∷ u)) (length (c ∷ s)) shorter in
    rw n (
      bind-is (leading_int 0 (c ∷ s)) _ (v, x ∷ u) _ int
        (rw (fraction_of-name x u named, unit_name-name (x ∷ u) (named, rest))
          (rw read (
            bind-is (unit_of (x ∷ u)) _ unit _ known
              (bind-is (scaled v 0 1 unit) _ (v * unit) _ total refl)))))

numeric_start :
    (c : ℕ)
    → b'0' ≤ c
    → c ≤ b'9'
    → (is_numeric c ≡ true) × (eqb c b'-' ≡ false) × (eqb c b'+' ≡ false)
unfolding is_numeric is_digit
numeric_start c l h = (ground arith, ground arith, ground arith)

quantities-single :
    (fuel c : ℕ) (s : Bytes) (v : ℕ)
    → quantity (c ∷ s) ≡ some (v, [])
    → v ≤ limit
    → quantities (suc fuel) 0 (c ∷ s) ≡ some v
unfolding quantities
quantities-single fuel c s v e l =
    let room : ltb limit (0 + v) ≡ false = not_less limit (0 + v) (omega arith) in
    bind-is (quantity (c ∷ s)) _ (v, []) _ e (rw room (ap some (omega arith)))

magnitude-single :
    (c : ℕ) (s : Bytes) (v : ℕ)
    → quantity (c ∷ s) ≡ some (v, [])
    → v ≤ limit
    → c ∷ s ≢ codes "0"
    → magnitude (c ∷ s) ≡ some v
unfolding magnitude ◌==◌
magnitude-single c s v e l n =
    let other : (c ∷ s) == codes "0" ≡ false = ground (arith, ==_iff (c ∷ s) (codes "0")) in
    rw other (quantities-single (length s) c s v e l)

unsigned_duration :
    (c : ℕ) (s : Bytes) (v : ℕ)
    → eqb c b'-' ≡ false
    → eqb c b'+' ≡ false
    → magnitude (c ∷ s) ≡ some v
    → v < limit
    → parse_duration (c ∷ s) ≡ some (pos v)
unfolding parse_duration signed
unsigned_duration c s v m p e l =
    let room : ltb (limit - 1) v ≡ false = not_less (limit - 1) v (omega arith) in
    rw m (rw p (rw e (rw room refl)))

pub at_most : (n unit : ℕ) → 1 ≤ unit → n ≤ n * unit
at_most n unit h = let grown = mul-le-mul_left {m = 1} {n = unit} n h in omega arith

longer_than :
    (c : ℕ) (s : Bytes) (x : ℕ) (u : Bytes) → length (x ∷ u) < length (c ∷ s) → c ∷ s ≢ codes "0"
longer_than c s x u l e = let one : length (c ∷ s) ≡ 1 = ap length e in omega arith

-- A decimal number in front of the name of a unit is read as that many of the unit.
pub parse_duration-decimal :
    (n : ℕ) (u : Bytes) (unit : ℕ)
    → All (λ c. is_numeric c ≡ false) u
    → u ≢ []
    → unit_of u ≡ some unit
    → 1 ≤ unit
    → n * unit < limit
    → parse_duration (decimal_on 20 n u) ≡ some (pos (n * unit))
parse_duration-decimal n [] unit named full known k l = absurd (full refl)
parse_duration-decimal n (x ∷ u) unit (first, named) full known k l =
    let small = at_most n unit k in
    let (c, s, e, low, high) = decimal_on-start n (x ∷ u) (omega arith) in
    let (numeric, minus, plus) = numeric_start c low high in
    let longer = subst (λ t. length (x ∷ u) < length t) e (decimal_on-length 19 n (x ∷ u)) in
    let read =
      quantity-made c s n x u unit numeric
        (ap (leading_int 0) (sym e)
          ∙ leading_int-decimal_on 19 n (x ∷ u) (omega arith) (omega arith)
          ∙ leading_int-name n x u first)
        longer (first, named) known (scaled-whole n unit (omega arith) k) in
    ap parse_duration e
    ∙ unsigned_duration c s (n * unit) minus plus
        (magnitude-single c s (n * unit) read (omega arith) (longer_than c s x u longer)) l
