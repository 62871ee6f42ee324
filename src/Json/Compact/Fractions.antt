-- ===== src/Json/Compact/Fractions.antt =====
-- The compaction of a raw message at the whole part and the fraction of a number.
use xyllo.Base.{
  Bytes, true, false, ℕ, eqb, some, [], ◌∷◌, ◌≡◌, ◌⊎◌, refl, sym, ap, ◌∙◌, subst, arith, Bool-cases,
  inl, inr,
}
use xyllo.Json.Numbers.{is_space, is_digit, digits_from, whole_part, fraction_part}
use xyllo.Json.Encode.{outside, compact_from}
use xyllo.Json.Compact.{compact_from-token}
use xyllo.Json.Compact.Digits.{
  Avoids, is_point, digit_token, digits_from-Avoids, digits-compact-is, triple,
}

-- The whole part.
whole_part_cases :
    (c : ℕ) (s : Bytes) (w : ℕ) (rest : Bytes)
    → whole_part (c ∷ s) ≡ some (w, rest)
    → ((c ≡ b'0') × (w ≡ 0) × (rest ≡ s))
      ⊎ ((eqb c b'0' ≡ false)
          × (is_digit c ≡ true)
          × (digits_from 0 0 (c ∷ s) ≡ (w, (digits_from 0 0 (c ∷ s)).1, rest)))
unfolding whole_part
whole_part_cases c s w rest e = elim (Bool-cases (eqb c b'0')) [
  | inl y ↦ inl (ground arith, ground arith, ground arith)
  | inr n ↦ elim (Bool-cases (is_digit c)) [
    | inl y ↦ inr (n, y, triple (digits_from 0 0 (c ∷ s)) w rest (ground arith) (ground arith))
    | inr k ↦ absurd (ground arith)
  ]
]

whole_part-zero : (s : Bytes) → whole_part (b'0' ∷ s) ≡ some (0, s)
unfolding whole_part
whole_part-zero s = refl

whole_part-run :
    (c : ℕ) (s : Bytes) (w k : ℕ) (rest : Bytes)
    → eqb c b'0' ≡ false
    → is_digit c ≡ true
    → digits_from 0 0 (c ∷ s) ≡ (w, k, rest)
    → whole_part (c ∷ s) ≡ some (w, rest)
unfolding whole_part digits_from
whole_part-run c s w k rest z y e =
    rw (z, y) (ap (λ (r : ℕ × ℕ × Bytes). some (r.0, r.2)) (rw y at e))

pub whole_part-compact :
    (s : Bytes) (w : ℕ) (rest : Bytes)
    → whole_part s ≡ some (w, rest)
    → (Avoids is_digit rest → Avoids is_digit (compact_from 0 outside rest))
    → whole_part (compact_from 0 outside s) ≡ some (w, compact_from 0 outside rest)
unfolding whole_part is_space
whole_part-compact [] w rest e h = absurd cc
whole_part-compact (c ∷ s) w rest e h = elim (whole_part_cases c s w rest e) [
  | inl (z, nought, same) ↦
      rw (z, nought, same)
        (ap whole_part (compact_from-token b'0' s (omega arith) (omega arith) refl)
          ∙ whole_part-zero (compact_from 0 outside s))
  | inr (z, y, run) ↦
      let (a, b, sp) = digit_token c y in
      let left : Avoids is_digit rest =
        subst (λ r. Avoids is_digit r.2) run (digits_from-Avoids 0 0 (c ∷ s)) in
      let token = compact_from-token c s a b sp in
      ap whole_part token
      ∙ whole_part-run c (compact_from 0 outside s) w (digits_from 0 0 (c ∷ s)).1
          (compact_from 0 outside rest) z y
          (ap (digits_from 0 0) (sym token)
            ∙ digits-compact-is 0 0 (c ∷ s) w (digits_from 0 0 (c ∷ s)).1 rest run (h left))
]

-- The fraction.
pub fraction_part_cases :
    (w c : ℕ) (s : Bytes) (d n : ℕ) (rest : Bytes)
    → fraction_part w (c ∷ s) ≡ some (d, n, rest)
    → ((c ≡ b'.') × (eqb n 0 ≡ false) × (digits_from w 0 s ≡ (d, n, rest)))
      ⊎ ((is_point c ≡ false) × (d ≡ w) × (n ≡ 0) × (rest ≡ c ∷ s))
unfolding fraction_part is_point
fraction_part_cases w c s d n rest e = elim (Bool-cases (eqb c b'.')) [
  | inl y ↦ inl (ground arith, ground arith, ground arith)
  | inr n ↦ inr (n, ground arith, ground arith, ground arith)
]

fraction_part-run :
    (w : ℕ) (s : Bytes) (d n : ℕ) (rest : Bytes)
    → eqb n 0 ≡ false
    → digits_from w 0 s ≡ (d, n, rest)
    → fraction_part w (b'.' ∷ s) ≡ some (d, n, rest)
unfolding fraction_part
fraction_part-run w s d n rest z e = rw (e, z) refl

fraction_part-none : (w : ℕ) (s : Bytes) → Avoids is_point s → fraction_part w s ≡ some (w, 0, s)
unfolding fraction_part is_point
fraction_part-none w [] h = refl
fraction_part-none w (c ∷ s) h = rw h refl

pub fraction_part-nil :
    (w d n : ℕ) (rest : Bytes)
    → fraction_part w [] ≡ some (d, n, rest)
    → (w ≡ d) × (0 ≡ n) × ([] ≡ rest)
unfolding fraction_part
fraction_part-nil w d n rest e = (cc, cc, cc)

pub fraction_part-compact :
    (w : ℕ) (s : Bytes) (d n : ℕ) (rest : Bytes)
    → fraction_part w s ≡ some (d, n, rest)
    → (Avoids is_digit rest → Avoids is_digit (compact_from 0 outside rest))
    → (Avoids is_point s → Avoids is_point (compact_from 0 outside s))
    → fraction_part w (compact_from 0 outside s) ≡ some (d, n, compact_from 0 outside rest)
unfolding is_space
fraction_part-compact w [] d n rest e digit point =
    let (same, nought, all) = fraction_part-nil w d n rest e in
    rw (sym same, sym nought, sym all) (fraction_part-none w (compact_from 0 outside []) (point tt))
fraction_part-compact w (c ∷ s) d n rest e digit point =
    elim (fraction_part_cases w c s d n rest e) [
      | inl (p, z, run) ↦
          let left : Avoids is_digit rest =
            subst (λ r. Avoids is_digit r.2) run (digits_from-Avoids w 0 s) in
          rw p (
            ap (fraction_part w) (compact_from-token b'.' s (omega arith) (omega arith) refl)
            ∙ fraction_part-run w (compact_from 0 outside s) d n (compact_from 0 outside rest) z
                (digits-compact-is w 0 s d n rest run (digit left)))
      | inr (no_point, same, nought, all) ↦
          rw (same, nought, all)
            (fraction_part-none w (compact_from 0 outside (c ∷ s)) (point no_point))
    ]
