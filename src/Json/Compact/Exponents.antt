-- ===== src/Json/Compact/Exponents.antt =====
-- The compaction of a raw message at the exponent of a number.
use xyllo.Base.{
  Bytes, true, false, ◌||◌, ℕ, eqb, ℤ, pos, ◌-ℤ◌, Option, none, some, [], ◌∷◌, ◌≡◌, ◌≢◌, ◌⊎◌, refl,
  sym, ap, ◌∙◌, arith, Bool-cases, inl, inr, if◌then◌else◌,
}
use xyllo.Json.Numbers.{◌>>=◌, is_space, is_digit, digits_from, signed_exponent, exponent_part}
use xyllo.Json.Encode.{outside, compact_from}
use xyllo.Json.Compact.{compact_from-token}
use xyllo.Json.Compact.Digits.{Avoids, is_e, EndsNumber, digit_token, compact_rest, digits-compact}

-- The exponent.
signed_exponent_cases :
    (c : ℕ) (s : Bytes) (x : ℤ) (rest : Bytes)
    → signed_exponent (c ∷ s) ≡ some (x, rest)
    → ((c ≡ b'-')
        × (eqb (digits_from 0 0 s).1 0 ≡ false)
        × (x ≡ pos 0 -ℤ pos (digits_from 0 0 s).0)
        × ((digits_from 0 0 s).2 ≡ rest))
      ⊎ (((c ≡ b'+')
            × (eqb (digits_from 0 0 s).1 0 ≡ false)
            × (x ≡ pos (digits_from 0 0 s).0)
            × ((digits_from 0 0 s).2 ≡ rest))
          ⊎ ((is_digit c ≡ true)
              × (eqb (digits_from 0 0 (c ∷ s)).1 0 ≡ false)
              × (x ≡ pos (digits_from 0 0 (c ∷ s)).0)
              × ((digits_from 0 0 (c ∷ s)).2 ≡ rest)))
unfolding signed_exponent digits_from
signed_exponent_cases c s x rest e = elim (Bool-cases (eqb c b'-')) [
  | inl y ↦ inl (ground arith, ground arith, ground arith, ground arith)
  | inr n ↦ elim (Bool-cases (eqb c b'+')) [
    | inl y ↦ inr (inl (ground arith, ground arith, ground arith, ground arith))
    | inr k ↦ inr (inr (ground arith, ground arith, ground arith, ground arith))
  ]
]

signed_exponent-minus :
    (t : Bytes) (r : ℕ × ℕ × Bytes)
    → digits_from 0 0 t ≡ r
    → eqb r.1 0 ≡ false
    → signed_exponent (b'-' ∷ t) ≡ some (pos 0 -ℤ pos r.0, r.2)
unfolding signed_exponent
signed_exponent-minus t r e z = rw (e, z) refl

signed_exponent-plus :
    (t : Bytes) (r : ℕ × ℕ × Bytes)
    → digits_from 0 0 t ≡ r
    → eqb r.1 0 ≡ false
    → signed_exponent (b'+' ∷ t) ≡ some (pos r.0, r.2)
unfolding signed_exponent
signed_exponent-plus t r e z = rw (e, z) refl

unsigned_branch :
    (q r : ℕ × ℕ × Bytes)
    → q ≡ r
    → eqb r.1 0 ≡ false
    → if◌then◌else◌ {A = Option (ℤ × Bytes)} (eqb q.1 0) none (some (pos q.0, q.2))
      ≡ some (pos r.0, r.2)
unsigned_branch q r e z = rw (e, z) refl

signed_exponent-bare :
    (c : ℕ) (t : Bytes) (r : ℕ × ℕ × Bytes)
    → is_digit c ≡ true
    → digits_from 0 0 (c ∷ t) ≡ r
    → eqb r.1 0 ≡ false
    → signed_exponent (c ∷ t) ≡ some (pos r.0, r.2)
unfolding signed_exponent is_digit
signed_exponent-bare c t r y e z =
    let minus : eqb c b'-' ≡ false = ground arith in
    let plus : eqb c b'+' ≡ false = ground arith in
    rw (minus, plus) (unsigned_branch (digits_from 0 0 (c ∷ t)) r e z)

signed_exponent-compact :
    (s : Bytes) (x : ℤ) (rest : Bytes)
    → signed_exponent s ≡ some (x, rest)
    → Avoids is_digit (compact_from 0 outside rest)
    → signed_exponent (compact_from 0 outside s) ≡ some (x, compact_from 0 outside rest)
unfolding signed_exponent is_space
signed_exponent-compact [] x rest e h = absurd cc
signed_exponent-compact (c ∷ s) x rest e h = elim (signed_exponent_cases c s x rest e) [
  | inl (sign, z, same, all) ↦
      let digits = digits-compact 0 0 s (rw (sym all) at h) in
      rw (sign, same, sym all)
        (ap signed_exponent (compact_from-token b'-' s (omega arith) (omega arith) refl)
          ∙ signed_exponent-minus (compact_from 0 outside s) (compact_rest (digits_from 0 0 s))
              digits z)
  | inr (inl (sign, z, same, all)) ↦
      let digits = digits-compact 0 0 s (rw (sym all) at h) in
      rw (sign, same, sym all)
        (ap signed_exponent (compact_from-token b'+' s (omega arith) (omega arith) refl)
          ∙ signed_exponent-plus (compact_from 0 outside s) (compact_rest (digits_from 0 0 s))
              digits z)
  | inr (inr (y, z, same, all)) ↦
      let (a, b, sp) = digit_token c y in
      let token = compact_from-token c s a b sp in
      let digits = digits-compact 0 0 (c ∷ s) (rw (sym all) at h) in
      rw (same, sym all)
        (ap signed_exponent token
          ∙ signed_exponent-bare c (compact_from 0 outside s)
              (compact_rest (digits_from 0 0 (c ∷ s))) y (ap (digits_from 0 0) (sym token) ∙ digits)
              z)
]

some_exponent :
    (o : Option (ℤ × Bytes)) (x : Option ℤ) (rest : Bytes)
    → ◌≡◌ {A = Option (Option ℤ × Bytes)} (o >>= λ (i, r). some (some i, r)) (some (x, rest))
    → (i : ℤ) × (x ≡ some i) × (o ≡ some (i, rest))
some_exponent none x rest e = absurd cc
some_exponent (some (i, r)) x rest e = (i, cc, cc)

pub exponent_part_cases :
    (c : ℕ) (s : Bytes) (x : Option ℤ) (rest : Bytes)
    → exponent_part (c ∷ s) ≡ some (x, rest)
    → ((is_e c ≡ true) × (i : ℤ) × (x ≡ some i) × (signed_exponent s ≡ some (i, rest)))
      ⊎ ((is_e c ≡ false) × (x ≡ none) × (c ∷ s ≡ rest))
unfolding exponent_part is_e
exponent_part_cases c s x rest e = elim (Bool-cases (eqb c b'e' || eqb c b'E')) [
  | inl y ↦
      let (i, same, q) = some_exponent (signed_exponent s) x rest (rw y at e) in inl (y, i, same, q)
  | inr n ↦ inr (n, cc, cc)
]

exponent_part-some :
    (c : ℕ) (s : Bytes) (i : ℤ) (rest : Bytes)
    → is_e c ≡ true
    → signed_exponent s ≡ some (i, rest)
    → exponent_part (c ∷ s) ≡ some (some i, rest)
unfolding exponent_part is_e
exponent_part-some c s i rest y e = rw (y, e) refl

exponent_part-none : (s : Bytes) → Avoids is_e s → exponent_part s ≡ some (none, s)
unfolding exponent_part is_e
exponent_part-none [] h = refl
exponent_part-none (c ∷ s) h = rw h refl

exponent_part-nil :
    (x : Option ℤ) (rest : Bytes) → exponent_part [] ≡ some (x, rest) → (x ≡ none) × ([] ≡ rest)
unfolding exponent_part
exponent_part-nil x rest e = (cc, cc)

e_token : (c : ℕ) → is_e c ≡ true → (c ≢ 226) × (c ≢ 34) × (is_space c ≡ false)
unfolding is_e is_space
e_token c h = (ground arith, ground arith, ground arith)

pub exponent_part-compact :
    (s : Bytes) (x : Option ℤ) (rest : Bytes)
    → exponent_part s ≡ some (x, rest)
    → EndsNumber (compact_from 0 outside rest)
    → exponent_part (compact_from 0 outside s) ≡ some (x, compact_from 0 outside rest)
exponent_part-compact [] x rest e h =
    let (same, all) = exponent_part-nil x rest e in
    rw (same, all) (exponent_part-none (compact_from 0 outside rest) h.no_e)
exponent_part-compact (c ∷ s) x rest e h = elim (exponent_part_cases c s x rest e) [
  | inl (y, i, same, q) ↦
      let (a, b, sp) = e_token c y in
      rw same (
        ap exponent_part (compact_from-token c s a b sp)
        ∙ exponent_part-some c (compact_from 0 outside s) i (compact_from 0 outside rest) y
            (signed_exponent-compact s i rest q h.no_digit))
  | inr (n, same, all) ↦ rw (same, all) (exponent_part-none (compact_from 0 outside rest) h.no_e)
]
