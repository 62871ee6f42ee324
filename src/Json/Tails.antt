-- ===== src/Json/Tails.antt =====
-- Strings and numbers are read in the same way in front of a closing brace.
use xyllo.Base.{
  Bytes, Bool, true, false, ◌&&◌, ◌||◌, ◌++◌, ℕ, ◌+◌, ◌-◌, ◌*◌, eqb, leb, ℤ, pos, ◌-ℤ◌, Option,
  none, some, [], ◌∷◌, ◌≡◌, refl, arith, Bool-cases, Option-cases, inl, inr, if◌then◌else◌,
}
use xyllo.Json.Numbers.{
  ◌>>=◌, is_space, skip_space, expect, is_digit, digits_from, whole_part, fraction_part,
  signed_exponent, exponent_part, unsigned_number, parse_number,
}
use xyllo.Json.Texts.{Mode, Reading, broken, closes, goes, char_read, prepend, unquote_from}

abbrev pub tail : Bytes → Bytes
tail s = s ++ b'}' ∷ []

pub skip_space-tail : (s : Bytes) → skip_space (tail s) ≡ tail (skip_space s)
unfolding skip_space is_space
skip_space-tail [] = refl
skip_space-tail (c ∷ s) = elim (Bool-cases (is_space c)) [
  | inl y ↦ rw y (skip_space-tail s)
  | inr n ↦ rw n refl
]

pub expect-tail : (p s rest : Bytes) → expect p s ≡ some rest → expect p (tail s) ≡ some (tail rest)
unfolding expect
expect-tail [] s rest e = cc
expect-tail (x ∷ p) [] rest e = absurd cc
expect-tail (x ∷ p) (c ∷ s) rest e = elim (Bool-cases (eqb x c)) [
  | inl y ↦ rw y (expect-tail p s rest (rw y at e))
  | inr n ↦ absurd (ground arith)
]

prepend-tail :
    (out t rest : Bytes) (o o' : Option (Bytes × Bytes))
    → prepend out o ≡ some (t, rest)
    → ((t' : Bytes) → o ≡ some (t', rest) → o' ≡ some (t', tail rest))
    → prepend out o' ≡ some (t, tail rest)
prepend-tail out t rest none o' e h = absurd cc
prepend-tail out t rest (some (t', r)) o' e h = rw (h t' cc) cc

no_reading : {A : Type 0} {a : Bytes × Bytes} → ◌≡◌ {A = Option (Bytes × Bytes)} none (some a) → A
no_reading e = absurd cc

closed :
    (out s t rest : Bytes)
    → ◌≡◌ {A = Option (Bytes × Bytes)} (some (out, s)) (some (t, rest))
    → ◌≡◌ {A = Option (Bytes × Bytes)} (some (out, tail s)) (some (t, tail rest))
closed out s t rest e = cc

reading-tail :
    (m : Mode) (c : ℕ) (s t rest : Bytes) (x : Reading)
    → char_read m c ≡ x
    → ((m' : Mode) (t' : Bytes)
        → unquote_from m' s ≡ some (t', rest)
        → unquote_from m' (tail s) ≡ some (t', tail rest))
    → unquote_from m (c ∷ s) ≡ some (t, rest)
    → unquote_from m (c ∷ tail s) ≡ some (t, tail rest)
unfolding unquote_from
reading-tail m c s t rest broken k h e = no_reading (rw (k, unquote_from) at e)
reading-tail m c s t rest (closes out) k h e =
    rw (k, unquote_from) (closed out s t rest (rw (k, unquote_from) at e))
reading-tail m c s t rest (goes m' out) k h e =
    rw (k, unquote_from)
      (prepend-tail out t rest (unquote_from m' s) (unquote_from m' (tail s))
        (rw (k, unquote_from) at e) (h m'))

pub unquote_from-tail :
    (m : Mode) (s t rest : Bytes)
    → unquote_from m s ≡ some (t, rest)
    → unquote_from m (tail s) ≡ some (t, tail rest)
unfolding unquote_from
unquote_from-tail m [] t rest e = absurd cc
unquote_from-tail m (c ∷ s) t rest e =
    reading-tail m c s t rest (char_read m c) refl (λ m' t'. unquote_from-tail m' s t' rest) e

-- Numbers.
abbrev tail_rest : ℕ × ℕ × Bytes → ℕ × ℕ × Bytes
tail_rest r = (r.0, r.1, tail r.2)

digits_from-tail :
    (acc n : ℕ) (s : Bytes) → digits_from acc n (tail s) ≡ tail_rest (digits_from acc n s)
unfolding digits_from is_digit
digits_from-tail acc n [] = refl
digits_from-tail acc n (c ∷ s) = elim (Bool-cases (is_digit c)) [
  | inl y ↦ rw y (digits_from-tail (acc * 10 + (c - b'0')) (n + 1) s)
  | inr k ↦ rw k refl
]

abbrev pub tailed : {A : Type 0} → Option (A × Bytes) → Option (A × Bytes)
tailed none = none
tailed (some (a, rest)) = some (a, tail rest)

abbrev tailed_rest : Option (ℕ × ℕ × Bytes) → Option (ℕ × ℕ × Bytes)
tailed_rest none = none
tailed_rest (some (d, n, rest)) = some (d, n, tail rest)

whole_part-tail : (s : Bytes) → whole_part (tail s) ≡ tailed (whole_part s)
unfolding whole_part is_digit
whole_part-tail [] = refl
whole_part-tail (c ∷ s) = elim (Bool-cases (eqb c b'0')) [
  | inl y ↦ rw y refl
  | inr n ↦ elim (Bool-cases (leb b'0' c && leb c b'9')) [
    | inl y ↦ rw (n, y, digits_from-tail (0 + (c - b'0')) 1 s) refl
    | inr k ↦ rw (n, k) refl
  ]
]

zero_or :
    (r : ℕ × ℕ × Bytes)
    → (if◌then◌else◌ {A = Option (ℕ × ℕ × Bytes)} (eqb r.1 0) none (some (r.0, r.1, tail r.2)))
      ≡ tailed_rest
          (if◌then◌else◌ {A = Option (ℕ × ℕ × Bytes)} (eqb r.1 0) none (some (r.0, r.1, r.2)))
zero_or r = elim (Bool-cases (eqb r.1 0)) [ inl y ↦ rw y refl | inr n ↦ rw n refl ]

zero_exponent :
    (i : ℤ) (r : ℕ × ℕ × Bytes)
    → (if◌then◌else◌ {A = Option (ℤ × Bytes)} (eqb r.1 0) none (some (i, tail r.2)))
      ≡ tailed (if◌then◌else◌ {A = Option (ℤ × Bytes)} (eqb r.1 0) none (some (i, r.2)))
zero_exponent i r = elim (Bool-cases (eqb r.1 0)) [ inl y ↦ rw y refl | inr n ↦ rw n refl ]

fraction_part-tail :
    (d : ℕ) (s : Bytes) → fraction_part d (tail s) ≡ tailed_rest (fraction_part d s)
unfolding fraction_part
fraction_part-tail d [] = refl
fraction_part-tail d (c ∷ s) = elim (Bool-cases (eqb c b'.')) [
  | inl y ↦ rw (y, digits_from-tail d 0 s) (zero_or (digits_from d 0 s))
  | inr n ↦ rw n refl
]

signed_exponent-tail : (s : Bytes) → signed_exponent (tail s) ≡ tailed (signed_exponent s)
unfolding signed_exponent
signed_exponent-tail [] = refl
signed_exponent-tail (c ∷ s) = elim (Bool-cases (eqb c b'-')) [
  | inl y ↦
      rw (y, digits_from-tail 0 0 s)
        (zero_exponent (pos 0 -ℤ pos (digits_from 0 0 s).0) (digits_from 0 0 s))
  | inr n ↦ elim (Bool-cases (eqb c b'+')) [
    | inl y ↦
        rw (n, y, digits_from-tail 0 0 s)
          (zero_exponent (pos (digits_from 0 0 s).0) (digits_from 0 0 s))
    | inr k ↦
        rw (n, k, digits_from-tail 0 0 (c ∷ s))
          (zero_exponent (pos (digits_from 0 0 (c ∷ s)).0) (digits_from 0 0 (c ∷ s)))
  ]
]

some_tailed :
    (o : Option (ℤ × Bytes))
    → ◌≡◌ {A = Option (Option ℤ × Bytes)}
        (tailed o >>= λ (e, rest). some (some e, rest))
        (tailed (o >>= λ (e, rest). some (some e, rest)))
some_tailed none = refl
some_tailed (some (e, rest)) = refl

exponent_part-tail : (s : Bytes) → exponent_part (tail s) ≡ tailed (exponent_part s)
unfolding exponent_part
exponent_part-tail [] = refl
exponent_part-tail (c ∷ s) = elim (Bool-cases (eqb c b'e' || eqb c b'E')) [
  | inl y ↦ rw (y, signed_exponent-tail s) (some_tailed (signed_exponent s))
  | inr n ↦ rw n refl
]

unsigned_number-tail :
    (neg : Bool) (s : Bytes) → unsigned_number neg (tail s) ≡ tailed (unsigned_number neg s)
unfolding unsigned_number
unsigned_number-tail neg s = rw (whole_part-tail s) (elim (Option-cases (whole_part s)) [
  | inl e ↦ rw e refl
  | inr ((w, s₁), e) ↦
      rw (e, fraction_part-tail w s₁)
        (elim (Option-cases (fraction_part w s₁)) [
          | inl f ↦ rw f refl
          | inr ((d, n, s₂), f) ↦
              rw (f, exponent_part-tail s₂)
                (elim (Option-cases (exponent_part s₂)) [
                  | inl g ↦ rw g refl
                  | inr ((x, s₃), g) ↦ rw g refl
                ])
        ])
])

pub parse_number-tail : (s : Bytes) → parse_number (tail s) ≡ tailed (parse_number s)
unfolding parse_number
parse_number-tail [] = refl
parse_number-tail (c ∷ s) = elim (Bool-cases (eqb c b'-')) [
  | inl y ↦ rw y (unsigned_number-tail true s)
  | inr n ↦ rw n (unsigned_number-tail false (c ∷ s))
]
