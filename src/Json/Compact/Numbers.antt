-- ===== src/Json/Compact/Numbers.antt =====
-- The compaction of a raw message at its number literals.
use xyllo.Base.{
  Bytes, Bool, true, false, ◌&&◌, ℕ, eqb, ℤ, pos, ◌-ℤ◌, Option, some, [], ◌∷◌, ◌≡◌, ◌≢◌, refl, sym,
  ap, ◌∙◌, arith, Bool-cases, inl, inr,
}
use xyllo.Json.{Number}
use xyllo.Json.Numbers.{
  is_space, is_digit, whole_part, fraction_part, exponent_part, unsigned_number, parse_number,
  exponent_or_zero, is_none,
}
use xyllo.Json.Steps.{bind-some}
use xyllo.Json.Encode.{outside, compact_from}
use xyllo.Json.Compact.{compact_from-token}
use xyllo.Json.Compact.Digits.{Avoids, is_point, is_e, EndsNumber, settled}
use xyllo.Json.Compact.Fractions.{
  whole_part-compact, fraction_part_cases, fraction_part-nil, fraction_part-compact,
}
use xyllo.Json.Compact.Exponents.{exponent_part_cases, exponent_part-compact}

-- What a space in front of the fraction or the exponent leaves to them.
space-Quiet : (c : ℕ) → is_space c ≡ true → (is_point c ≡ false) × (is_e c ≡ false)
unfolding is_space is_point is_e
space-Quiet c h = (ground arith, ground arith)

exponent_through :
    (s : Bytes) (x : Option ℤ) (rest : Bytes) (c : ℕ) (t : Bytes)
    → exponent_part s ≡ some (x, rest)
    → s ≡ c ∷ t
    → is_space c ≡ true
    → s ≡ rest
exponent_through s x rest c t e is sp =
    let (_, quiet) = space-Quiet c sp in
    elim (exponent_part_cases c t x rest (ap exponent_part (sym is) ∙ e)) [
      | inl (y, _, _, _) ↦ absurd (ground arith)
      | inr (_, _, all) ↦ is ∙ all
    ]

fraction_through :
    (w : ℕ) (s : Bytes) (d n : ℕ) (s₂ : Bytes) (c : ℕ) (t : Bytes)
    → fraction_part w s ≡ some (d, n, s₂)
    → s ≡ c ∷ t
    → is_space c ≡ true
    → s ≡ s₂
unfolding is_space
fraction_through w s d n s₂ c t e is sp =
    elim (fraction_part_cases w c t d n s₂ (ap (fraction_part w) (sym is) ∙ e)) [
      | inl (y, _, _) ↦ absurd (ground arith)
      | inr (_, _, _, all) ↦ is ∙ sym all
    ]

-- A fraction that there is not leaves the text to the exponent.
no_fraction :
    (w : ℕ) (s : Bytes) (d n : ℕ) (s₂ : Bytes)
    → fraction_part w s ≡ some (d, n, s₂)
    → Avoids is_point s
    → s ≡ s₂
unfolding is_point
no_fraction w [] d n s₂ e h = let (_, _, all) = fraction_part-nil w d n s₂ e in all
no_fraction w (c ∷ s) d n s₂ e h = elim (fraction_part_cases w c s d n s₂ e) [
  | inl (y, _, _) ↦ absurd (ground arith)
  | inr (_, _, _, all) ↦ sym all
]

back_digit : is_digit 92 ≡ false
unfolding is_digit
back_digit = refl

back_point : is_point 92 ≡ false
unfolding is_point
back_point = refl

abbrev made : Bool → ℕ → ℕ → Option ℤ → Number
made neg d n x = record {
  negative = neg;
  digits = d;
  exponent = exponent_or_zero x -ℤ pos n;
  whole = eqb n 0 && is_none x;
}

-- The readings that a number's reading is made of.
record Parts (neg : Bool) (s : Bytes) (k : Number) (rest : Bytes) : Type 0 where
  w : ℕ
  s₁ : Bytes
  d : ℕ
  n : ℕ
  s₂ : Bytes
  x : Option ℤ
  whole_read : whole_part s ≡ some (w, s₁)
  fraction_read : fraction_part w s₁ ≡ some (d, n, s₂)
  exponent_read : exponent_part s₂ ≡ some (x, rest)
  result : made neg d n x ≡ k

made_rest :
    (neg : Bool) (d n : ℕ) (x : Option ℤ) (s₃ : Bytes) (k : Number) (rest : Bytes)
    → ◌≡◌ {A = Option (Number × Bytes)} (some (made neg d n x, s₃)) (some (k, rest))
    → (made neg d n x ≡ k) × (s₃ ≡ rest)
made_rest neg d n x s₃ k rest e = (cc, cc)

unsigned_number-Parts :
    (neg : Bool) (s : Bytes) (k : Number) (rest : Bytes)
    → unsigned_number neg s ≡ some (k, rest)
    → Parts neg s k rest
unfolding unsigned_number
unsigned_number-Parts neg s k rest e =
    let ((w', s₁'), whole, e₁) = bind-some (whole_part s) _ (k, rest) e in
    let ((d', n', s₂'), fraction, e₂) = bind-some (fraction_part w' s₁') _ (k, rest) e₁ in
    let ((x', s₃'), exponent, e₃) = bind-some (exponent_part s₂') _ (k, rest) e₂ in
    let (same, all) = made_rest neg d' n' x' s₃' k rest e₃ in
    record {
      w = w';
      s₁ = s₁';
      d = d';
      n = n';
      s₂ = s₂';
      x = x';
      whole_read = whole;
      fraction_read = fraction;
      exponent_read = exponent ∙ ap (λ r. some (x', r)) all;
      result = same;
    }

unsigned_number-reads :
    (neg : Bool) (s : Bytes) (k : Number) (rest : Bytes)
    → Parts neg s k rest
    → unsigned_number neg s ≡ some (k, rest)
unfolding unsigned_number
unsigned_number-reads neg s k rest p =
    rw (p.whole_read, p.fraction_read, p.exponent_read) (ap (λ m. some (m, rest)) p.result)

Parts-compact :
    (neg : Bool) (s : Bytes) (k : Number) (rest : Bytes)
    → Parts neg s k rest
    → EndsNumber (compact_from 0 outside rest)
    → Parts neg (compact_from 0 outside s) k (compact_from 0 outside rest)
Parts-compact neg s k rest p ends = record {
  w = p.w;
  s₁ = compact_from 0 outside p.s₁;
  d = p.d;
  n = p.n;
  s₂ = compact_from 0 outside p.s₂;
  x = p.x;
  whole_read = whole_part-compact s p.w p.s₁ p.whole_read (λ h.
      settled is_digit p.s₁ rest back_digit h
        (λ c t is sp.
          let same = fraction_through p.w p.s₁ p.d p.n p.s₂ c t p.fraction_read is sp in
          same ∙ exponent_through p.s₂ p.x rest c t p.exponent_read (sym same ∙ is) sp)
        ends.no_digit);
  fraction_read =
      fraction_part-compact p.w p.s₁ p.d p.n p.s₂ p.fraction_read
        (λ h.
          settled is_digit p.s₂ rest back_digit h
            (λ c t is sp. exponent_through p.s₂ p.x rest c t p.exponent_read is sp) ends.no_digit)
        (λ h.
          let same = no_fraction p.w p.s₁ p.d p.n p.s₂ p.fraction_read h in
          settled is_point p.s₁ rest back_point h
            (λ c t is sp.
              same ∙ exponent_through p.s₂ p.x rest c t p.exponent_read (sym same ∙ is) sp)
            ends.no_point);
  exponent_read = exponent_part-compact p.s₂ p.x rest p.exponent_read ends;
  result = p.result;
}

unsigned_number-compact :
    (neg : Bool) (s : Bytes) (k : Number) (rest : Bytes)
    → unsigned_number neg s ≡ some (k, rest)
    → EndsNumber (compact_from 0 outside rest)
    → unsigned_number neg (compact_from 0 outside s) ≡ some (k, compact_from 0 outside rest)
unsigned_number-compact neg s k rest e ends =
    unsigned_number-reads neg (compact_from 0 outside s) k (compact_from 0 outside rest)
      (Parts-compact neg s k rest (unsigned_number-Parts neg s k rest e) ends)

parse_number-minus : (s : Bytes) → parse_number (b'-' ∷ s) ≡ unsigned_number true s
unfolding parse_number
parse_number-minus s = refl

parse_number-plain :
    (c : ℕ) (s : Bytes) → eqb c b'-' ≡ false → parse_number (c ∷ s) ≡ unsigned_number false (c ∷ s)
unfolding parse_number
parse_number-plain c s n = rw n refl

-- A number is read from its compaction in front of what cannot lengthen it.
pub parse_number-compact :
    (c : ℕ) (s : Bytes) (k : Number) (rest : Bytes)
    → is_space c ≡ false
    → (c ≢ 226) × (c ≢ 34)
    → parse_number (c ∷ s) ≡ some (k, rest)
    → EndsNumber (compact_from 0 outside rest)
    → parse_number (c ∷ compact_from 0 outside s) ≡ some (k, compact_from 0 outside rest)
unfolding is_space
parse_number-compact c s k rest sp (a, b) e ends = elim (Bool-cases (eqb c b'-')) [
  | inl y ↦
      let minus : c ≡ b'-' = ground arith in
      ap (λ x. parse_number (x ∷ compact_from 0 outside s)) minus
      ∙ parse_number-minus (compact_from 0 outside s)
      ∙ unsigned_number-compact true s k rest
          (sym (parse_number-minus s) ∙ ap (λ x. parse_number (x ∷ s)) (sym minus) ∙ e) ends
  | inr n ↦
      parse_number-plain c (compact_from 0 outside s) n
      ∙ ap (unsigned_number false) (sym (compact_from-token c s a b sp))
      ∙ unsigned_number-compact false (c ∷ s) k rest (sym (parse_number-plain c s n) ∙ e) ends
]
