-- ===== src/Json/Compact/Digits.antt =====
-- The compaction of a raw message at runs of digits, and what may follow a number.
use xyllo.Base.{
  Bytes, Bool, true, false, ◌||◌, ℕ, ◌+◌, ◌-◌, ◌*◌, eqb, [], ◌∷◌, ◌≡◌, ◌≢◌, ◌⊎◌, refl, sym, ap, ◌∙◌,
  subst, arith, Bool-cases, inl, inr,
}
use xyllo.Json.Numbers.{is_space, is_digit, digits_from}
use xyllo.Json.Encode.{outside, compact_from}
use xyllo.Json.Compact.{compact_from-token, compact_from-head}

-- The text does not begin with such a byte.
abbrev pub Avoids : (ℕ → Bool) → Bytes → Type 0
Avoids p [] = Unit
Avoids p (c ∷ s) = p c ≡ false

unfoldable pub is_point : ℕ → Bool
is_point c = eqb c b'.'

unfoldable pub is_e : ℕ → Bool
is_e c = eqb c b'e' || eqb c b'E'

-- The text cannot lengthen a number in front of it.
pub record EndsNumber (s : Bytes) : Type 0 where
  pub no_digit : Avoids is_digit s
  pub no_point : Avoids is_point s
  pub no_e : Avoids is_e s

either_byte :
    (p : ℕ → Bool) (c d : ℕ) → p 92 ≡ false → p c ≡ false → (d ≡ c) ⊎ (d ≡ 92) → p d ≡ false
either_byte p c d back h (inl e) = rw e h
either_byte p c d back h (inr e) = rw e back

head-Avoids :
    (p : ℕ → Bool) (c : ℕ) (s : Bytes)
    → p 92 ≡ false
    → is_space c ≡ false
    → p c ≡ false
    → Avoids p (compact_from 0 outside (c ∷ s))
head-Avoids p c s back sp h =
    let (d, t, e, k) = compact_from-head c s sp in
    subst (Avoids p) (sym e) (either_byte p c d back h k)

-- What a text begins with is kept by the compaction, if the text that is left begins the same way
-- where the text begins with a space.
pub settled :
    (p : ℕ → Bool) (s r : Bytes)
    → p 92 ≡ false
    → Avoids p s
    → ((c : ℕ) (t : Bytes) → s ≡ c ∷ t → is_space c ≡ true → s ≡ r)
    → Avoids p (compact_from 0 outside r)
    → Avoids p (compact_from 0 outside s)
unfolding compact_from
settled p [] r back h through left = tt
settled p (c ∷ s) r back h through left = elim (Bool-cases (is_space c)) [
  | inl y ↦ subst (λ x. Avoids p (compact_from 0 outside x)) (sym (through c s refl y)) left
  | inr n ↦ head-Avoids p c s back n h
]

-- Digits.
pub digit_token : (c : ℕ) → is_digit c ≡ true → (c ≢ 226) × (c ≢ 34) × (is_space c ≡ false)
unfolding is_digit is_space
digit_token c h = (ground arith, ground arith, ground arith)

digits_stop : (acc n : ℕ) (s : Bytes) → Avoids is_digit s → digits_from acc n s ≡ (acc, n, s)
unfolding digits_from
digits_stop acc n [] h = refl
digits_stop acc n (c ∷ s) h = rw h refl

abbrev pub compact_rest : ℕ × ℕ × Bytes → ℕ × ℕ × Bytes
compact_rest r = (r.0, r.1, compact_from 0 outside r.2)

pub digits-compact :
    (acc n : ℕ) (s : Bytes)
    → Avoids is_digit (compact_from 0 outside (digits_from acc n s).2)
    → digits_from acc n (compact_from 0 outside s) ≡ compact_rest (digits_from acc n s)
unfolding digits_from compact_from
digits-compact acc n [] h = refl
digits-compact acc n (c ∷ s) h = elim (Bool-cases (is_digit c)) [
  | inl y ↦
      let (a, b, sp) = digit_token c y in
      rw (compact_from-token c s a b sp)
        (rw y (digits-compact (acc * 10 + (c - b'0')) (n + 1) s (rw y at h)))
  | inr y ↦ rw y (digits_stop acc n (compact_from 0 outside (c ∷ s)) (rw y at h))
]

-- A run of digits ends where no digit stands.
pub digits_from-Avoids : (acc n : ℕ) (s : Bytes) → Avoids is_digit (digits_from acc n s).2
unfolding digits_from
digits_from-Avoids acc n [] = tt
digits_from-Avoids acc n (c ∷ s) = elim (Bool-cases (is_digit c)) [
  | inl y ↦ rw y (digits_from-Avoids (acc * 10 + (c - b'0')) (n + 1) s)
  | inr y ↦ rw y y
]

pub digits-compact-is :
    (acc n : ℕ) (s : Bytes) (d k : ℕ) (rest : Bytes)
    → digits_from acc n s ≡ (d, k, rest)
    → Avoids is_digit (compact_from 0 outside rest)
    → digits_from acc n (compact_from 0 outside s) ≡ (d, k, compact_from 0 outside rest)
digits-compact-is acc n s d k rest e h =
    digits-compact acc n s (subst (λ r. Avoids is_digit (compact_from 0 outside r.2)) (sym e) h)
    ∙ ap compact_rest e

pub triple : (r : ℕ × ℕ × Bytes) (d : ℕ) (rest : Bytes) → r.0 ≡ d → r.2 ≡ rest → r ≡ (d, r.1, rest)
triple (d', k, rest') d rest e f = rw (e, f) refl
