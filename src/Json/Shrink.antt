-- ===== src/Json/Shrink.antt =====
-- Lengths: what the readings of numbers and strings leave of a text.
use xyllo.Base.{
  Bytes, Bool, true, false, ℕ, suc, ◌+◌, ◌-◌, ◌*◌, ◌≤◌, eqb, Option, none, some, [], ◌∷◌, length,
  ◌≡◌, refl, arith, Bool-cases, Option-cases, inl, inr, ℤ,
}
use xyllo.Json.{Number}
use xyllo.Json.Numbers.{
  ◌>>=◌, skip_space, expect, digits_from, whole_part, fraction_part, signed_exponent, exponent_part,
  unsigned_number, parse_number,
}
use xyllo.Json.Texts.{
  unquote, unquote_from, char_read, Mode, Reading, broken, closes, goes, prepend,
}

-- A reading that may fail, of at most `n` bytes' worth of text.
abbrev pub Leaves {ℓ} : {A : Type ℓ} → ℕ → Option (A × Bytes) → Type 0
Leaves n none = Unit
Leaves n (some (a, rest)) = length rest ≤ n

abbrev pub Rests : ℕ → Option Bytes → Type 0
Rests n none = Unit
Rests n (some rest) = length rest ≤ n

pub bind-Leaves :
    {A B : Type 0} (n k : ℕ) (o : Option (A × Bytes)) (f : A × Bytes → Option (B × Bytes))
    → Leaves n o
    → ((a : A) (rest : Bytes) → length rest ≤ n → Leaves k (f (a, rest)))
    → Leaves k (o >>= f)
bind-Leaves n k none f h g = tt
bind-Leaves n k (some (a, rest)) f h g = g a rest h

pub bind_rest-Leaves :
    {B : Type 0} (n k : ℕ) (o : Option Bytes) (f : Bytes → Option (B × Bytes))
    → Rests n o
    → ((rest : Bytes) → length rest ≤ n → Leaves k (f rest))
    → Leaves k (o >>= f)
bind_rest-Leaves n k none f h g = tt
bind_rest-Leaves n k (some rest) f h g = g rest h

pub length-skip_space : (s : Bytes) → length (skip_space s) ≤ length s
unfolding skip_space
length-skip_space [] = omega arith
length-skip_space (c ∷ s) = ground (arith, length-skip_space s)

pub expect-Rests : (p s : Bytes) (n : ℕ) → length s ≤ n + length p → Rests n (expect p s)
unfolding expect
expect-Rests [] s n h = omega arith
expect-Rests (x ∷ p) [] n h = tt
expect-Rests (x ∷ p) (c ∷ s) n h =
    let rest = expect-Rests p s n (omega arith) in
    elim (Bool-cases (eqb x c)) [ inl y ↦ rw y rest | inr k ↦ rw k tt ]

length-digits_from : (acc n : ℕ) (s : Bytes) → length (digits_from acc n s).2 ≤ length s
unfolding digits_from
length-digits_from acc n [] = omega arith
length-digits_from acc n (c ∷ s) =
    ground (arith, length-digits_from (acc * 10 + (c - b'0')) (n + 1) s)

prepend-Leaves :
    (n : ℕ) (out : Bytes) (o : Option (Bytes × Bytes)) → Leaves n o → Leaves n (prepend out o)
prepend-Leaves n out none h = tt
prepend-Leaves n out (some (text, rest)) h = h

pub weaken : {A : Type 0} (n k : ℕ) (o : Option (A × Bytes)) → n ≤ k → Leaves n o → Leaves k o
weaken n k none le h = tt
weaken n k (some (a, rest)) le h = omega arith

read-Leaves :
    (s : Bytes) (c : ℕ) (m : Mode) (x : Reading)
    → char_read m c ≡ x
    → ((m' : Mode) → Leaves (length s) (unquote_from m' s))
    → Leaves (length (c ∷ s)) (unquote_from m (c ∷ s))
unfolding unquote_from
read-Leaves s c m broken e h = rw (e, Leaves) tt
read-Leaves s c m (closes out) e h = rw (e, Leaves) (omega arith)
read-Leaves s c m (goes m' out) e h =
    rw (e, Leaves)
      (weaken (length s) (suc (length s)) (prepend out (unquote_from m' s)) (omega arith)
        (prepend-Leaves (length s) out (unquote_from m' s) (h m')))

unquote_from-Leaves : (s : Bytes) (m : Mode) → Leaves (length s) (unquote_from m s)
unfolding unquote_from
unquote_from-Leaves [] m = tt
unquote_from-Leaves (c ∷ s) m = read-Leaves s c m (char_read m c) refl (unquote_from-Leaves s)

pub unquote-Leaves : (s : Bytes) → Leaves (length s) (unquote s)
unfolding unquote
unquote-Leaves s = unquote_from-Leaves s _

-- The parts of a number.
whole_part-bound : (s : Bytes) (r : ℕ × Bytes) → whole_part s ≡ some r → length r.1 ≤ length s
unfolding whole_part
whole_part-bound [] r e = absurd cc
whole_part-bound (c ∷ s) r e =
    let digits = length-digits_from 0 0 (c ∷ s) in
    elim (Bool-cases (eqb c b'0')) [ inl y ↦ ground arith | inr n ↦ ground (arith, digits) ]

fraction_part-bound :
    (d : ℕ) (s : Bytes) → (r : ℕ × ℕ × Bytes) → fraction_part d s ≡ some r → length r.2 ≤ length s
unfolding fraction_part
fraction_part-bound d [] r e = ground arith
fraction_part-bound d (c ∷ s) r e = let digits = length-digits_from d 0 s in ground (arith, digits)

signed_exponent-bound :
    (s : Bytes) (r : ℤ × Bytes) → signed_exponent s ≡ some r → length r.1 ≤ length s
unfolding signed_exponent
signed_exponent-bound [] r e = absurd cc
signed_exponent-bound (c ∷ s) r e =
    let signed = length-digits_from 0 0 s in
    let unsigned = length-digits_from 0 0 (c ∷ s) in ground (arith, signed, unsigned)

exponent_part-bound :
    (s : Bytes) (r : Option ℤ × Bytes) → exponent_part s ≡ some r → length r.1 ≤ length s
unfolding exponent_part
exponent_part-bound [] r e = ground arith
exponent_part-bound (c ∷ s) r e = elim (Option-cases (signed_exponent s)) [
  | inl n ↦ ground arith
  | inr (q, p) ↦ let read = signed_exponent-bound s q p in ground (arith, read)
]

-- A number, read in three parts.
unsigned_number-bound :
    (neg : Bool) (s : Bytes) (r : Number × Bytes)
    → unsigned_number neg s ≡ some r
    → length r.1 ≤ length s
unfolding unsigned_number
unsigned_number-bound neg s r h = elim (Option-cases (whole_part s)) [
  | inl n ↦ ground arith
  | inr ((w, s₁), p) ↦ elim (Option-cases (fraction_part w s₁)) [
    | inl n ↦ ground arith
    | inr ((d, n, s₂), q) ↦ elim (Option-cases (exponent_part s₂)) [
      | inl k ↦ ground arith
      | inr ((e, s₃), t) ↦
          let one = whole_part-bound s (w, s₁) p in
          let two = fraction_part-bound w s₁ (d, n, s₂) q in
          let three = exponent_part-bound s₂ (e, s₃) t in ground (arith, one, two, three)
    ]
  ]
]

of_bound :
    {A : Type 0} (n : ℕ) (o : Option (A × Bytes))
    → ((r : A × Bytes) → o ≡ some r → length r.1 ≤ n)
    → Leaves n o
of_bound n none h = tt
of_bound n (some (a, rest)) h = h (a, rest) refl

pub parse_number-Leaves : (s : Bytes) → Leaves (length s) (parse_number s)
unfolding parse_number
parse_number-Leaves [] = tt
parse_number-Leaves (c ∷ s) = elim (Bool-cases (eqb c b'-')) [
  | inl y ↦
      rw (y, Leaves)
        (weaken (length s) (suc (length s)) (unsigned_number true s) (omega arith)
          (of_bound (length s) (unsigned_number true s) (unsigned_number-bound true s)))
  | inr n ↦
      rw (n, Leaves)
        (of_bound (suc (length s)) (unsigned_number false (c ∷ s))
          (unsigned_number-bound false (c ∷ s)))
]
