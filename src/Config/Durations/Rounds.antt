-- ===== src/Config/Durations/Rounds.antt =====
-- The rounds of the loop of time.ParseDuration: each reads something, so that the loop ends.
use xyllo.Base.{
  Bytes, ◌==◌, Bool, true, false, not, ◌&&◌, ℕ, zero, suc, ◌+◌, ◌-◌, ◌*◌, ◌≤◌, ◌<◌, eqb, Option,
  none, some, [], ◌∷◌, length, if◌then◌else◌, ◌≡◌, ◌≢◌, refl, ap, arith, Bool-cases, Option-cases,
  inl, inr,
}
use xyllo.Json.Numbers.{◌>>=◌}
use xyllo.Json.Steps.{bind-some}
use xyllo.Config.Durations.{
  leading_int, leading_fraction, is_numeric, unit_name, unit_of, fraction_of, scaled, quantity,
  quantities,
}

length-leading_int :
    (x : ℕ) (s : Bytes) (v : ℕ) (rest : Bytes)
    → leading_int x s ≡ some (v, rest)
    → length rest ≤ length s
unfolding leading_int
length-leading_int x [] v rest e = ground arith
length-leading_int x (c ∷ s) v rest e =
    let shorter = length-leading_int (x * 10 + (c - b'0')) s v rest in ground arith

length-leading_fraction :
    (full : Bool) (x scale : ℕ) (s : Bytes) → length (leading_fraction full x scale s).2 ≤ length s
unfolding leading_fraction
length-leading_fraction full x scale [] = omega arith
length-leading_fraction full x scale (c ∷ s) = ground (
  arith,
  length-leading_fraction true x scale s,
  length-leading_fraction false (x * 10 + (c - b'0')) (scale * 10) s,
)

length-fraction_of : (s : Bytes) → length (fraction_of s).3 ≤ length s
unfolding fraction_of
length-fraction_of [] = omega arith
length-fraction_of (c ∷ s) = ground (arith, length-leading_fraction false 0 1 s)

length-unit_name : (s : Bytes) → length (unit_name s).0 + length (unit_name s).1 ≡ length s
unfolding unit_name
length-unit_name [] = refl
length-unit_name (c ∷ s) = ground (arith, length-unit_name s)

nothing_read : {a : ℕ × Bytes} → none ≢ some a
nothing_read e = absurd cc

scaled_rest :
    (rest : Bytes) (o : Option ℕ) (n : ℕ) (left : Bytes)
    → ◌≡◌ {A = Option (ℕ × Bytes)} (o >>= λ m. some (m, rest)) (some (n, left))
    → rest ≡ left
scaled_rest rest none n left e = absurd cc
scaled_rest rest (some m) n left e = cc

named_rest :
    (rest : Bytes) (o : Option ℕ) (g : ℕ → Option ℕ) (n : ℕ) (left : Bytes)
    → ◌≡◌ {A = Option (ℕ × Bytes)} (o >>= λ unit. g unit >>= λ m. some (m, rest)) (some (n, left))
    → rest ≡ left
named_rest rest none g n left e = absurd cc
named_rest rest (some unit) g n left e = scaled_rest rest (g unit) n left e

-- The name of a unit is not empty.
round_rest :
    (b : Bool) (u rest : Bytes) (o : Option ℕ) (g : ℕ → Option ℕ) (n : ℕ) (left : Bytes)
    → (if◌then◌else◌ {A = Option (ℕ × Bytes)} b none (
        if◌then◌else◌ {A = Option (ℕ × Bytes)}
          (u == [])
          none
          (o >>= λ unit. g unit >>= λ m. some (m, rest))))
      ≡ some (n, left)
    → (1 ≤ length u) × (rest ≡ left)
unfolding ◌==◌
round_rest true u rest o g n left e = absurd cc
round_rest false [] rest o g n left e = absurd cc
round_rest false (c ∷ u) rest o g n left e = (omega arith, named_rest rest o g n left e)

shorter : (a b d e f g : ℕ) → a ≤ b → d ≤ a → e + f ≡ d → 1 ≤ e → f ≡ g → g < b
shorter a b d e f g p q r s t = omega arith

-- A round takes at least one byte.
quantity-shorter :
    (c : ℕ) (s : Bytes) (n : ℕ) (rest : Bytes)
    → quantity (c ∷ s) ≡ some (n, rest)
    → length rest < length (c ∷ s)
unfolding quantity
quantity-shorter c s n rest e = elim (Bool-cases (is_numeric c)) [
  | inl y ↦
      let ((v, s₁), int, e₁) = bind-some (leading_int 0 (c ∷ s)) _ (n, rest) (rw y at e) in
      let (named, left) =
        round_rest (eqb (length s₁) (length (c ∷ s)) && not (fraction_of s₁).2)
          (unit_name (fraction_of s₁).3).0 (unit_name (fraction_of s₁).3).1
          (unit_of (unit_name (fraction_of s₁).3).0)
          (scaled v (fraction_of s₁).0 (fraction_of s₁).1) n rest e₁ in
      shorter (length s₁) (length (c ∷ s)) (length (fraction_of s₁).3)
        (length (unit_name (fraction_of s₁).3).0) (length (unit_name (fraction_of s₁).3).1)
        (length rest) (length-leading_int 0 (c ∷ s) v s₁ int) (length-fraction_of s₁)
        (length-unit_name (fraction_of s₁).3) named (ap length left)
  | inr k ↦ absurd (nothing_read (rw k at e))
]

-- More fuel than there are bytes changes nothing.
pub quantities-fuel :
    (fuel m d : ℕ) (s : Bytes) → length s ≤ fuel → fuel ≤ m → quantities fuel d s ≡ quantities m d s
unfolding quantities
quantities-fuel fuel m d [] l h = refl
quantities-fuel zero m d (c ∷ s) l h = absurd (omega arith)
quantities-fuel (suc fuel) zero d (c ∷ s) l h = absurd (omega arith)
quantities-fuel (suc fuel) (suc m) d (c ∷ s) l h = elim (Option-cases (quantity (c ∷ s))) [
  | inl k ↦ rw k refl
  | inr ((v, rest), k) ↦
      let shorter = quantity-shorter c s v rest k in
      let later = quantities-fuel fuel m (d + v) rest (omega arith) (omega arith) in
      rw k (rw later refl)
]
