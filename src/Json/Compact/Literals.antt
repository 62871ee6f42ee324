-- ===== src/Json/Compact/Literals.antt =====
-- The compaction of a raw message at fixed texts, and what may follow a value.
use xyllo.Base.{
  Bytes, true, ℕ, eqb, some, [], ◌∷◌, ◌≡◌, ◌⊎◌, refl, sym, ap, ◌∙◌, subst, arith, Bool-cases, inl,
  inr, All,
}
use xyllo.Json.Numbers.{is_space, skip_space, expect, is_digit}
use xyllo.Json.Encode.{outside, compact_from}
use xyllo.Json.Compact.{compact_from-token, compact_from-skip_space}
use xyllo.Json.Kept.{IsKept}
use xyllo.Json.Compact.Digits.{EndsNumber, is_point, is_e}

pub compact_from-kept :
    (c : ℕ) (s : Bytes) → IsKept c → compact_from 0 outside (c ∷ s) ≡ c ∷ compact_from 0 outside s
compact_from-kept c s (a, b, sp) = compact_from-token c s a b sp

expect_cases :
    (x c : ℕ) (p s rest : Bytes)
    → expect (x ∷ p) (c ∷ s) ≡ some rest
    → (x ≡ c) × (expect p s ≡ some rest)
unfolding expect
expect_cases x c p s rest e = elim (Bool-cases (eqb x c)) [
  | inl y ↦ (ground arith, rw y at e)
  | inr n ↦ absurd (ground arith)
]

expect-step : (x : ℕ) (p s : Bytes) → expect (x ∷ p) (x ∷ s) ≡ expect p s
unfolding expect
expect-step x p s = let same : eqb x x ≡ true = ground arith in rw same refl

kept_rest :
    (s rest : Bytes)
    → some s ≡ some rest
    → some (compact_from 0 outside s) ≡ some (compact_from 0 outside rest)
kept_rest s rest e = cc

pub expect-compact :
    (p s rest : Bytes)
    → All IsKept p
    → expect p s ≡ some rest
    → expect p (compact_from 0 outside s) ≡ some (compact_from 0 outside rest)
unfolding expect
expect-compact [] s rest h e = kept_rest s rest e
expect-compact (x ∷ p) [] rest h e = absurd cc
expect-compact (x ∷ p) (c ∷ s) rest (k, h) e =
    let (same, e') = expect_cases x c p s rest e in
    ap (λ y. expect (x ∷ p) (compact_from 0 outside (y ∷ s))) (sym same)
    ∙ ap (expect (x ∷ p)) (compact_from-kept x s k)
    ∙ expect-step x p (compact_from 0 outside s)
    ∙ expect-compact p s rest h e'

-- What follows a value: nothing, or one of the characters that may stand there.
unfoldable pub Stops : Bytes → Type 0
Stops s =
    (skip_space s ≡ [])
    ⊎ ((c : ℕ) × (t : Bytes) × (skip_space s ≡ c ∷ t) × ((c ≡ b',') ⊎ ((c ≡ b']') ⊎ (c ≡ b'}'))))

stop_byte : (c : ℕ) (s : Bytes) → (c ≡ b',') ⊎ ((c ≡ b']') ⊎ (c ≡ b'}')) → EndsNumber (c ∷ s)
unfolding is_digit is_point is_e
stop_byte c s h = record { no_digit = ground arith; no_point = ground arith; no_e = ground arith }

pub stop-IsKept : (c : ℕ) → (c ≡ b',') ⊎ ((c ≡ b']') ⊎ (c ≡ b'}')) → IsKept c
unfolding is_space
stop-IsKept c h = (ground arith, ground arith, ground arith)

pub skipped : (s t : Bytes) → skip_space s ≡ t → compact_from 0 outside s ≡ compact_from 0 outside t
skipped s t e = sym (compact_from-skip_space s) ∙ ap (compact_from 0 outside) e

nothing : EndsNumber (compact_from 0 outside [])
unfolding compact_from
nothing = record { no_digit = tt; no_point = tt; no_e = tt }

pub Stops-EndsNumber : (s : Bytes) → Stops s → EndsNumber (compact_from 0 outside s)
unfolding Stops
Stops-EndsNumber s (inl e) = subst EndsNumber (sym (skipped s [] e)) nothing
Stops-EndsNumber s (inr (c, t, e, h)) =
    subst EndsNumber (sym (skipped s (c ∷ t) e ∙ compact_from-kept c t (stop-IsKept c h)))
      (stop_byte c (compact_from 0 outside t) h)
